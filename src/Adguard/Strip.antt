-- ===== src/Adguard/Strip.antt =====
-- Adguard/Block: taking the managed block out of the rules.
use opti_gate.Base.{String, List, [], ◌∷◌, ◌++◌, none, some, ◌==◌, string_eq}
use opti_gate.Base.{◌≡◌, refl, sym, ap, ◌∙◌, inl, inr, In, beq_refl, eq_of_beq}
use opti_gate.Base.{Bool-cases, append-nil}
use opti_gate.Adguard.Block.{marker_begin, marker_end, split_at, drop_block, after_end}
use opti_gate.Adguard.Block.{strip_managed_block, with_block}

abbrev pub IsAbsent : String → List String → Type 0
IsAbsent x xs = In x xs → ⊥

module _ (marker : String) where
  split_at-none : (rules : List String) → IsAbsent marker rules → split_at marker rules ≡ none
  unfolding split_at
  split_at-none [] h = refl
  split_at-none (r ∷ rules) h = elim (Bool-cases (r == marker)) [
    | inl e ↦ absurd (h (inl (sym (eq_of_beq r marker e))))
    | inr e ↦ rw (e, split_at-none rules (λ m. h (inr m))) refl
  ]

  split_at-some :
      (before rest : List String)
      → IsAbsent marker before
      → split_at marker (before ++ (marker ∷ rest)) ≡ some (before, rest)
  unfolding split_at
  split_at-some [] rest h = rw (beq_refl marker) refl
  split_at-some (r ∷ before) rest h = elim (Bool-cases (r == marker)) [
    | inl e ↦ absurd (h (inl (sym (eq_of_beq r marker e))))
    | inr e ↦ rw (e, split_at-some before rest (λ m. h (inr m))) refl
  ]

-- Rules without a begin marker stay as they are. Of others, everything before the first begin
-- marker stays, and everything after the first end marker that follows it; without an end marker,
-- all from the begin marker on is dropped.
pub strip_managed_block_branches :
    (before managed rest : List String)
    → IsAbsent marker_begin before
    → IsAbsent marker_end managed
    → (strip_managed_block before ≡ before)
      × (strip_managed_block (before ++ (marker_begin ∷ (managed ++ (marker_end ∷ rest))))
          ≡ before ++ rest)
      × (strip_managed_block (before ++ (marker_begin ∷ managed)) ≡ before)
unfolding strip_managed_block
strip_managed_block_branches before managed rest h k = (
  ap (drop_block before) (split_at-none marker_begin before h),
  ap (drop_block _) (split_at-some marker_begin before (managed ++ (marker_end ∷ rest)) h)
      ∙ ap (λ o. before ++ after_end o) (split_at-some marker_end managed rest k),
  ap (drop_block _) (split_at-some marker_begin before managed h)
      ∙ (ap (λ o. before ++ after_end o) (split_at-none marker_end managed k) ∙ append-nil before),
)

-- The rules that stand outside the managed block: all, where there is no begin marker; those before
-- the first begin marker and those behind the first end marker that follows it; or, where no end
-- marker follows, those before the begin marker.
pub data IsOutside : (rules outside : List String) → Type 0 where
  no_block : (rules : List String) → IsAbsent marker_begin rules → IsOutside rules rules
  block :
      (before managed rest : List String)
      → IsAbsent marker_begin before
      → IsAbsent marker_end managed
      → IsOutside (before ++ (marker_begin ∷ (managed ++ (marker_end ∷ rest)))) (before ++ rest)
  unclosed :
      (before managed : List String)
      → IsAbsent marker_begin before
      → IsAbsent marker_end managed
      → IsOutside (before ++ (marker_begin ∷ managed)) before

pub strip_managed_block-IsOutside :
    (rules outside : List String) → IsOutside rules outside → strip_managed_block rules ≡ outside
strip_managed_block-IsOutside _ _ (no_block rules h) =
    (strip_managed_block_branches rules [] [] h (λ m. m)).0
strip_managed_block-IsOutside _ _ (block before managed rest h k) =
    (strip_managed_block_branches before managed rest h k).1
strip_managed_block-IsOutside _ _ (unclosed before managed h k) =
    (strip_managed_block_branches before managed [] h k).2

-- Taking the block out gives back what it was put behind.
pub strip_managed_block-with_block :
    (preserved managed : List String)
    → IsAbsent marker_begin preserved
    → IsAbsent marker_end managed
    → strip_managed_block (with_block preserved managed) ≡ preserved
unfolding with_block
strip_managed_block-with_block preserved [] h k =
    (strip_managed_block_branches preserved [] [] h k).0
strip_managed_block-with_block preserved (r ∷ managed) h k =
    (strip_managed_block_branches preserved (r ∷ managed) [] h k).1 ∙ append-nil preserved
