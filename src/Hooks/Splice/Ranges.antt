-- ===== src/Hooks/Splice/Ranges.antt =====
-- internal/hooks/splice.go: the members of an object stand behind each other.
use mathlib.Core.Bool.{false≢true}
use mathlib.Core.Option.{some-injective}
use agentpulse_bridge.Base.{
  ℕ, ◌≤◌, ◌≡◌, refl, ap, sym, ◌∙◌, inl, inr, ◌⊎◌, true, false, Option, some, List, [], ◌∷◌, ◌++◌,
  String, str_eq, last?, Bool-cases, All, All-append, arith,
}
use agentpulse_bridge.Hooks.Splice.{Member, found, head?, locate}

-- The members stand in the order of the text between two offsets, and do not overlap.
abbrev pub IsOrdered : ℕ → ℕ → List Member → Type 0
IsOrdered low high [] = low ≤ high
IsOrdered low high (m ∷ ms) =
    (low ≤ m.key_start)
    × (m.key_start ≤ m.value_start)
    × (m.value_start ≤ m.value_end)
    × IsOrdered m.value_end high ms

abbrev pub end_of : ℕ → List Member → ℕ
end_of low [] = low
end_of low (m ∷ ms) = end_of m.value_end ms

pub IsOrdered-le : (low high : ℕ) (ms : List Member) → IsOrdered low high ms → low ≤ high
IsOrdered-le low high [] h = h
IsOrdered-le low high (m ∷ ms) (a, b, c, h) =
    omega (arith, a, b, c, IsOrdered-le m.value_end high ms h)

pub split-IsOrdered :
    (low high : ℕ) (xs ys : List Member)
    → IsOrdered low high (xs ++ ys)
    → IsOrdered low (end_of low xs) xs × IsOrdered (end_of low xs) high ys
split-IsOrdered low high [] ys h = (omega arith, h)
split-IsOrdered low high (x ∷ xs) ys (a, b, c, h) =
    let (left, right) = split-IsOrdered x.value_end high xs ys h in ((a, b, c, left), right)

pub All-end_by :
    (low high : ℕ) (ms : List Member)
    → IsOrdered low high ms
    → All (λ (m : Member). m.value_end ≤ high) ms
All-end_by low high [] h = tt
All-end_by low high (m ∷ ms) (a, b, c, h) =
    (IsOrdered-le m.value_end high ms h, All-end_by m.value_end high ms h)

pub All-start_from :
    (low lower high : ℕ) (ms : List Member)
    → lower ≤ low
    → IsOrdered low high ms
    → All (λ (m : Member). lower ≤ m.key_start) ms
All-start_from low lower high [] le h = tt
All-start_from low lower high (m ∷ ms) le (a, b, c, h) =
    (omega (arith, a, le), All-start_from m.value_end lower high ms (omega (arith, a, b, c, le)) h)

-- The member before the place, or what was given for a place at the start.
abbrev pub last_or : Option Member → List Member → Option Member
last_or previous [] = previous
last_or previous (m ∷ ms) = last_or (some m) ms

pub record IsFound (key : String) (previous : Option Member) (ms : List Member) (p : Option Member)
    (m : Member) (n : Option Member) : Type 0 where
  pub before : List Member
  pub after : List Member
  pub is_list : ms ≡ before ++ m ∷ after
  pub is_previous : p ≡ last_or previous before
  pub is_next : n ≡ head? after
  pub is_key : str_eq m.key key ≡ true

found_parts :
    (q p : Option Member) (m k : Member) (r n : Option Member)
    → found q m r ≡ found p k n
    → (q ≡ p) × (m ≡ k) × (r ≡ n)
found_parts q p m k r n h = (cc, cc, cc)

pub locate-IsFound :
    (key : String) (previous : Option Member) (ms : List Member) (p : Option Member) (m : Member)
    (n : Option Member)
    → locate key previous ms ≡ found p m n
    → IsFound key previous ms p m n
unfolding locate
locate-IsFound key previous [] p m n h = cc
locate-IsFound key previous (x ∷ xs) p m n h = elim (Bool-cases (str_eq x.key key)) [
  | inl same ↦
      let (ep, em, en) = found_parts previous p x m (head? xs) n (rw same at h) in
      record {
        before = [];
        after = xs;
        is_list = ap (λ (y : Member). y ∷ xs) em;
        is_previous = sym ep;
        is_next = sym en;
        is_key = ap (λ (y : Member). str_eq y.key key) (sym em) ∙ same;
      }
  | inr other ↦
      let rest = locate-IsFound key (some x) xs p m n (rw other at h) in
      record {
        before = x ∷ rest.before;
        after = rest.after;
        is_list = ap (◌∷◌ x) rest.is_list;
        is_previous = rest.is_previous;
        is_next = rest.is_next;
        is_key = rest.is_key;
      }
]

-- Where a replaced range may lie: it begins behind one member and ends before another.
abbrev pub IsAside : ℕ → ℕ → Member → Type 0
IsAside start end m = (m.value_end ≤ start) ⊎ (end ≤ m.key_start)

abbrev pub OthersAside : String → ℕ → ℕ → List Member → Type 0
OthersAside key start end ms =
    All (λ (m : Member). str_eq m.key key ≡ false → IsAside start end m) ms

pub All-weaken :
    {P Q : Member → Type 0} (ms : List Member) → ((m : Member) → P m → Q m) → All P ms → All Q ms
All-weaken [] f h = tt
All-weaken (m ∷ ms) f h = (f m h.0, All-weaken ms f h.1)

-- A range between the members before a member and those behind it leaves the others aside.
pub others_aside :
    (key : String) (start end : ℕ) (before : List Member) (m : Member) (after : List Member)
    → str_eq m.key key ≡ true
    → All (λ (x : Member). x.value_end ≤ start) before
    → All (λ (x : Member). end ≤ x.key_start) after
    → OthersAside key start end (before ++ m ∷ after)
others_aside key start end before m after is_key left right =
    All-append (λ (x : Member). str_eq x.key key ≡ false → IsAside start end x) before (m ∷ after)
      (All-weaken before (λ x h other. inl h) left)
      (
        λ other. absurd (false≢true (sym other ∙ is_key)),
        All-weaken after (λ x h other. inr h) right,
      )

pub last_or-end_of :
    (x : Member) (xs : List Member)
    → (previous : Member) × (last_or (some x) xs ≡ some previous)
      × (end_of x.value_end xs ≡ previous.value_end)
last_or-end_of x [] = (x, refl, refl)
last_or-end_of x (y ∷ xs) = last_or-end_of y xs

pub last_ends_all :
    (low high : ℕ) (ms : List Member) (last : Member)
    → last? ms ≡ some last
    → IsOrdered low high ms
    → IsOrdered low last.value_end ms × (last.value_end ≤ high) × (low ≤ last.value_end)
last_ends_all low high [] last e h = cc
last_ends_all low high (m ∷ []) last e (a, b, c, h) =
    let same : m.value_end ≡ last.value_end =
      ap (λ (x : Member). x.value_end) (some-injective _ _ e) in
    ((a, b, c, omega (arith, same)), omega (arith, same, h), omega (arith, a, b, c, same))
last_ends_all low high (m ∷ n ∷ ms) last e (a, b, c, h) =
    let (ordered, le, ge) = last_ends_all m.value_end high (n ∷ ms) last e h in
    ((a, b, c, ordered), le, omega (arith, a, b, c, ge))
