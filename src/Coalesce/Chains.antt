-- ===== src/Coalesce/Chains.antt =====
-- internal/coalesce/coalesce.go: `DropStaleActivity` against a specification without indices.
use agentpulse_bridge.Base.{
  ℕ, ◌+◌, ◌≤◌, ◌≡◌, refl, ap, ◌∙◌, inl, inr, Bool, true, false, not, ◌&&◌, Option, none, some,
  String, List, [], ◌∷◌, arith, ◌==◌, eq_iff, if◌then◌else◌, any, Bool-cases, Option-cases, Bytes,
}
use agentpulse_bridge.Coalesce.{
  Chain, Header, same, Last, get, chain_of, is_stale, note, mark, scan, sweep, is_dropped,
  drop_stale_activity,
}

same_refl : (c : Chain) → same c c ≡ true
same_refl c = ground (arith, eq_iff c.session c.session, eq_iff c.helper c.helper)

module _ (decode : Bytes → Option Header) (parse_time : String → Option ℕ) where
  -- The line belongs to the chain.
  abbrev in_chain_of : Chain → Option Chain → Bool
  in_chain_of c none = false
  in_chain_of c (some d) = same d c

  abbrev pub in_chain : Chain → Bytes → Bool
  in_chain c line = in_chain_of c (chain_of decode parse_time line)

  abbrev pub superseded_by : Option Chain → List Bytes → Bool
  superseded_by none later = false
  superseded_by (some c) later = any (in_chain c) later

  -- A line is dropped if it is a stale activity event and a later line has its chain.
  unfoldable pub without_superseded : ℕ → List Bytes → List Bytes
  without_superseded now [] = []
  without_superseded now (l ∷ ls) =
      let rest = without_superseded now ls in
      if is_stale decode parse_time now l && superseded_by (chain_of decode parse_time l) ls
      then rest
      else l ∷ rest

  -- The index that ends up under a chain, from the index `d` that it had.
  last_index : Chain → ℕ → List Bytes → ℕ → ℕ
  last_index c i [] d = d
  last_index c i (l ∷ ls) d = last_index c (i + 1) ls (if in_chain c l then i else d)

  get-note :
      (c : Chain) (i : ℕ) (o : Option Chain) (last : Last)
      → get c (note decode parse_time i o last) ≡ (if in_chain_of c o then i else get c last)
  get-note c i none last = refl
  get-note c i (some d) last = refl

  get-scan :
      (now : ℕ) (c : Chain) (i : ℕ) (last : Last) (ls : List Bytes)
      → get c (scan decode parse_time now i last ls).1 ≡ last_index c i ls (get c last)
  unfolding scan last_index
  get-scan now c i last [] = refl
  get-scan now c i last (l ∷ ls) =
      get-scan now c (i + 1) (note decode parse_time i (chain_of decode parse_time l) last) ls
      ∙ ap (last_index c (i + 1) ls) (get-note c i (chain_of decode parse_time l) last)

  last_index-none :
      (c : Chain) (i : ℕ) (ls : List Bytes) (d : ℕ)
      → any (in_chain c) ls ≡ false
      → last_index c i ls d ≡ d
  unfolding last_index
  last_index-none c i [] d h = refl
  last_index-none c i (l ∷ ls) d h = elim (Bool-cases (in_chain c l)) [
    | inl e ↦ let h' = rw e at h in cc
    | inr e ↦ rw e (last_index-none c (i + 1) ls d (rw e at h))
  ]

  last_index-ge :
      (c : Chain) (i : ℕ) (ls : List Bytes) (d : ℕ)
      → any (in_chain c) ls ≡ true
      → i ≤ last_index c i ls d
  unfolding last_index
  last_index-ge c i [] d h = cc
  last_index-ge c i (l ∷ ls) d h = elim (Bool-cases (any (in_chain c) ls)) [
    | inl later ↦ omega (arith, last_index-ge c (i + 1) ls (if in_chain c l then i else d) later)
    | inr none_later ↦ elim (Bool-cases (in_chain c l)) [
      | inl here ↦ rw here (omega (arith, last_index-none c (i + 1) ls i none_later))
      | inr not_here ↦ let h' = rw not_here at h in cc
    ]
  ]

  kept_or_not :
      (c : Chain) (i : ℕ) (l : Bytes) (ls : List Bytes) (n d : ℕ)
      → chain_of decode parse_time l ≡ some c
      → n ≡ last_index c i (l ∷ ls) d
      → not (n == i) ≡ any (in_chain c) ls
  unfolding last_index
  kept_or_not c i l ls n d mine h =
      let here : in_chain c l ≡ true = rw mine (same_refl c) in
      let value : n ≡ last_index c (i + 1) ls i = rw here at h in
      elim (Bool-cases (any (in_chain c) ls)) [
        | inl later ↦ rw later (ground (arith, value, last_index-ge c (i + 1) ls i later))
        | inr none_later ↦
            rw none_later (ground (arith, value, last_index-none c (i + 1) ls i none_later))
      ]

  is_dropped-mark :
      (now i : ℕ) (l : Bytes) (ls : List Bytes) (final : Last) (d : Chain → ℕ)
      → ((c : Chain) → get c final ≡ last_index c i (l ∷ ls) (d c))
      → is_dropped decode parse_time final i (mark decode parse_time now l)
        ≡ (is_stale decode parse_time now l && superseded_by (chain_of decode parse_time l) ls)
  unfolding last_index
  is_dropped-mark now i l ls final d h = elim (Bool-cases (is_stale decode parse_time now l)) [
    | inr fresh ↦ rw fresh
    | inl stale ↦ elim (Option-cases (chain_of decode parse_time l)) [
      | inl unread ↦ rw (stale, unread)
      | inr (c, mine) ↦ rw (stale, mine) (kept_or_not c i l ls (get c final) (d c) mine (h c))
    ]
  ]

  sweep-scan :
      (now i : ℕ) (ls : List Bytes) (final last : Last) (d : Chain → ℕ)
      → ((c : Chain) → get c final ≡ last_index c i ls (d c))
      → sweep decode parse_time final i (scan decode parse_time now i last ls).0 ls
        ≡ without_superseded now ls
  unfolding sweep scan without_superseded last_index
  sweep-scan now i [] final last d h = refl
  sweep-scan now i (l ∷ ls) final last d h = rw (is_dropped-mark now i l ls final d h) (
      rw (
        sweep-scan now (i + 1) ls final
          (note decode parse_time i (chain_of decode parse_time l) last)
          (λ c. if in_chain c l then i else d c) h))

  -- `DropStaleActivity` returns the lines in their order without exactly those that are activity
  -- events older than ten minutes and have a later line of their chain behind them.
  pub drop_stale_activity-without_superseded :
      (lines : List Bytes) (now : ℕ)
      → drop_stale_activity decode parse_time lines now ≡ without_superseded now lines
  unfolding drop_stale_activity
  drop_stale_activity-without_superseded lines now =
      sweep-scan now 0 lines (scan decode parse_time now 0 [] lines).1 [] (λ c. 0)
        (λ c. get-scan now c 0 [] lines)
