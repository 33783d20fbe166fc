-- ===== src/Flush/Loop/Weight.antt =====
-- cmd/agentpulse/flush.go: how much a turn of the loop takes off what is left to send.
use agentpulse_bridge.Base.{
  ℕ, zero, suc, ◌+◌, ◌≤◌, ◌<◌, ◌≡◌, ◌≢◌, ap, ◌∙◌, inl, inr, true, false, Option, none, some, List,
  [], ◌∷◌, ◌++◌, arith, if◌then◌else◌, length, get_elem?, drop, Bool-cases, Bytes,
}
use agentpulse_bridge.Relay.Types.{DroppedEvent}
use agentpulse_bridge.Flush.Subagents.{has_subagent}
use agentpulse_bridge.Flush.Loop.{drops, keep_undropped}

abbrev line_weight : Bytes → ℕ
line_weight l = if has_subagent l then 2 else 1

-- A line that carries the field counts twice: it may be sent once with it and once without.
unfoldable pub weight : List Bytes → ℕ
weight [] = 0
weight (l ∷ ls) = line_weight l + weight ls

line_weight_pos : (l : Bytes) → 1 ≤ line_weight l
line_weight_pos l = ground arith

pub length-weight : (ls : List Bytes) → length ls ≤ weight ls
unfolding weight
length-weight [] = omega arith
length-weight (l ∷ ls) = omega (arith, line_weight_pos l, length-weight ls)

pub weight-append : (xs ys : List Bytes) → weight (xs ++ ys) ≡ weight xs + weight ys
unfolding weight
weight-append [] ys = omega arith
weight-append (x ∷ xs) ys = omega (arith, weight-append xs ys)

pub weight-drop : (n : ℕ) (ls : List Bytes) → n ≤ length ls → weight (drop n ls) + n ≤ weight ls
unfolding weight
weight-drop zero ls h = omega arith
weight-drop (suc n) [] h = absurd (omega arith)
weight-drop (suc n) (l ∷ ls) h = omega (arith, line_weight_pos l, weight-drop n ls (omega arith))

-- A line with the field counts for one more than its length.
pub weight-marked :
    (ls : List Bytes) (i : ℕ) (l : Bytes)
    → get_elem? ls i ≡ some l
    → has_subagent l ≡ true
    → length ls < weight ls
unfolding weight
weight-marked [] i l at marked = cc
weight-marked (x ∷ ls) zero l at marked =
    let same : has_subagent x ≡ true =
      ap (λ (o : Option Bytes). elim o [ none ↦ false | some y ↦ has_subagent y ]) at ∙ marked in
    rw same (omega (arith, length-weight ls))
weight-marked (x ∷ ls) (suc i) l at marked =
    omega (arith, line_weight_pos x, weight-marked ls i l at marked)

pub weight-keep_undropped :
    (i : ℕ) (dropped : List DroppedEvent) (ls : List Bytes)
    → weight (keep_undropped i dropped ls) ≤ weight ls
unfolding weight keep_undropped
weight-keep_undropped i dropped [] = omega arith
weight-keep_undropped i dropped (l ∷ ls) = ground (arith, weight-keep_undropped (i + 1) dropped ls)

pub length-keep_undropped :
    (i : ℕ) (dropped : List DroppedEvent) (ls : List Bytes)
    → length (keep_undropped i dropped ls) ≤ length ls
unfolding keep_undropped
length-keep_undropped i dropped [] = omega arith
length-keep_undropped i dropped (l ∷ ls) = ground (arith, length-keep_undropped (i + 1) dropped ls)

pub weight-keep_undropped_lt :
    (i j : ℕ) (dropped : List DroppedEvent) (ls : List Bytes)
    → drops dropped j ≡ true
    → i ≤ j
    → j < i + length ls
    → weight (keep_undropped i dropped ls) < weight ls
unfolding weight keep_undropped
weight-keep_undropped_lt i j dropped [] hit low high = absurd (omega arith)
weight-keep_undropped_lt i j dropped (l ∷ ls) hit low high = elim (Bool-cases (drops dropped i)) [
  | inl here ↦ rw here (omega (arith, line_weight_pos l, weight-keep_undropped (i + 1) dropped ls))
  | inr there ↦
      let later : i ≢ j = λ e. (let back = rw e at there in cc) in
      rw there (
        omega (
          arith,
          weight-keep_undropped_lt (i + 1) j dropped ls hit (grind (arith, later)) (omega arith),
        ))
]
