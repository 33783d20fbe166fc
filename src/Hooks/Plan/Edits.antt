-- ===== src/Hooks/Plan/Edits.antt =====
-- internal/hooks/splice.go: what spliceHooksInto changes of a settings file.
use agentpulse_bridge.Base.{
  ℕ, ◌+◌, ◌≡◌, refl, ap, sym, subst, inl, inr, ◌⊎◌, Option, none, some, List, Bytes,
}
use agentpulse_bridge.Hooks.Owner.{Owner}
use agentpulse_bridge.Hooks.Scan.{ok, Object, scan_object, IsDecoder}
use agentpulse_bridge.Hooks.Scan.Laws.{scan_object-IsScanned}
use agentpulse_bridge.Hooks.Splice.{Member, find_member, splice_top_level_key}
use agentpulse_bridge.Hooks.Splice.Ranges.{IsOrdered}
use agentpulse_bridge.Hooks.Splice.Laws.{IsEdit, splice_top_level_key-IsEdit}
use agentpulse_bridge.Hooks.Plan.{
  Codec, Planned, planned, refused, PlanError, not_scanned, hooks_not_an_object, event_not_an_array,
  HooksObject, Wanted, hooks_object, merged_hooks, new_hooks_value, put_hooks, merge_hooks,
  splice_scanned, splice_hooks_into,
}

module _ (codec : Codec) (owner : Owner) (content : Bytes) where
  -- A refusal, or the text with one range between its braces replaced, which holds no byte of another
  -- member's key or value.
  abbrev pub IsSpliced : List Member → ℕ → ℕ → Planned Bytes → Type 0
  IsSpliced members brace_open brace_close result =
      ((e : PlanError) × (result ≡ refused e))
      ⊎ ((after : Bytes) × (result ≡ planned after)
          × IsEdit content brace_open brace_close "hooks" members after)

  put_hooks-IsSpliced :
      (members : List Member) (brace_open brace_close : ℕ) (indent : Bytes)
      (object : Option (HooksObject codec owner))
      → IsOrdered (brace_open + 1) brace_close members
      → IsSpliced members brace_open brace_close
          (put_hooks codec owner content members brace_open brace_close indent object)
  put_hooks-IsSpliced members brace_open brace_close indent none h = inl (event_not_an_array, refl)
  put_hooks-IsSpliced members brace_open brace_close indent (some object) h = inr (
    splice_top_level_key content brace_open brace_close members "hooks"
        (new_hooks_value codec owner indent object) indent,
    refl,
    splice_top_level_key-IsEdit content brace_open brace_close "hooks" members
        (new_hooks_value codec owner indent object) indent h,
  )

  merge_hooks-IsSpliced :
      (wanted : Wanted) (members : List Member) (brace_open brace_close : ℕ) (indent : Bytes)
      (object : Option (HooksObject codec owner))
      → IsOrdered (brace_open + 1) brace_close members
      → IsSpliced members brace_open brace_close
          (merge_hooks codec owner content wanted members brace_open brace_close indent object)
  merge_hooks-IsSpliced wanted members brace_open brace_close indent none h =
      inl (hooks_not_an_object, refl)
  merge_hooks-IsSpliced wanted members brace_open brace_close indent (some object) h =
      put_hooks-IsSpliced members brace_open brace_close indent
        (merged_hooks codec owner wanted object) h

  abbrev pub Rewrites : Planned Bytes → Type 0
  Rewrites result =
      ((e : PlanError) × (result ≡ refused e))
      ⊎ ((members : List Member) × (brace_open : ℕ) × (brace_close : ℕ) × (after : Bytes)
          × (scan_object (codec.decoder content) content ≡ ok (members, brace_open, brace_close))
          × (result ≡ planned after)
          × IsEdit content brace_open brace_close "hooks" members after)

  of_spliced :
      (members : List Member) (brace_open brace_close : ℕ) (result : Planned Bytes)
      → scan_object (codec.decoder content) content ≡ ok (members, brace_open, brace_close)
      → IsSpliced members brace_open brace_close result
      → Rewrites result
  of_spliced members brace_open brace_close result is_ok (inl refusal) = inl refusal
  of_spliced members brace_open brace_close result is_ok (inr (after, is_planned, edit)) =
      inr (members, brace_open, brace_close, after, is_ok, is_planned, edit)

  -- Whatever is wanted, with a decoder that ends each token and value within the text and behind what
  -- is skipped before it, an install or an uninstall is refused, or replaces one range of the text
  -- between the braces that scanObject finds, and no byte of the key or the value of another member
  -- than "hooks" that it finds is in that range.
  pub splice_hooks_into-Rewrites :
      (wanted : Wanted) (indent : Bytes)
      → IsDecoder (codec.decoder content) content
      → Rewrites (splice_hooks_into codec owner content wanted indent)
  unfolding splice_hooks_into
  splice_hooks_into-Rewrites wanted indent laws =
      elim (scan_object-IsScanned (codec.decoder content) content laws) [
        | inl (e, is_failed) ↦
            inl (not_scanned e, ap (splice_scanned codec owner content wanted indent) is_failed)
        | inr (members, brace_open, brace_close, is_ok, ordered, within, differ) ↦
            of_spliced members brace_open brace_close
              (splice_scanned codec owner content wanted indent
                (scan_object (codec.decoder content) content))
              is_ok
              (subst
                (λ (o : Object (codec.decoder content) content).
                  IsSpliced members brace_open brace_close
                    (splice_scanned codec owner content wanted indent o))
                (sym is_ok)
                (merge_hooks-IsSpliced wanted members brace_open brace_close indent
                  (hooks_object codec owner content (find_member members "hooks")) ordered))
      ]
