-- ===== src/Scip/Keeps.antt =====
-- Predicates that the loop of the message decoders (src/scip_decoder.rs) establishes, from what each
-- branch of a step leaves.
use workspace_atlas.Common.{
  ℕ, zero, suc, ◌≤◌, Bool, true, false, List, none, some, Text, ok, ◌>>=◌, ◌>>◌, ◌≡◌, length, arith,
  if◌then◌else◌, leb, Result-cases, Bool-cases, inl, inr, >>=-eq-ok,
}
use workspace_atlas.Scip.Types.{DResult}
use workspace_atlas.Scip.Reader.{Reader, Read, read_tag, store, new}
use workspace_atlas.Scip.Fields.{Step, each_field, skip, decode_message}
use workspace_atlas.Scip.Index.{room}
use workspace_atlas.Scip.Progress.{store-eq-ok}
use mathlib.Core.Path.{subst}

-- A read that can only leave a message that satisfies `P`.
pub record Keeps {S : Type 0} (P : S → Type 0) (read : Read S) : Type 0 where
  pub kept : (s : S) (r' : Reader) → read ≡ ok (s, r') → P s

module _ {S : Type 0} (P : S → Type 0) where
  pub Keeps-if : (b : Bool) (x y : Read S) → Keeps P x → Keeps P y → Keeps P (if b then x else y)
  Keeps-if true x y p q = p
  Keeps-if false x y p q = q

  -- The field is replaced by a value that was read.
  pub Keeps-store :
      {A : Type 0} (read : Read A) (change : A → S)
      → ((a : A) (r' : Reader) → read ≡ ok (a, r') → P (change a))
      → Keeps P (store read (λ a. ok (change a)))
  Keeps-store read change keep = record {
    kept = λ s r' h.
        let (a, e, c) = store-eq-ok read (λ a. ok (change a)) s r' h in
        let same : change a ≡ s = cc in subst P same (keep a r' e);
  }

  pub Keeps-skip : (most : ℕ) (s : S) (wire : ℕ) (r : Reader) → P s → Keeps P (skip most s wire r)
  Keeps-skip most s wire r p = Keeps-store _ (λ done. s) (λ a r' e. p)

  -- The field is an inner message.
  pub Keeps-inner :
      {A : Type 0} (Q : A → Type 0) (read : Read (List ℕ)) (decode : List ℕ → DResult A)
      (change : A → S)
      → ((bytes : List ℕ) (a : A) → decode bytes ≡ ok a → Q a)
      → ((a : A) → Q a → P (change a))
      → Keeps P (store read (λ sub. decode sub >>= λ a. ok (change a)))
  Keeps-inner Q read decode change inner keep = record {
    kept = λ s r' h.
        let (bytes, e, c) = store-eq-ok read (λ sub. decode sub >>= λ a. ok (change a)) s r' h in
        let (a, d, f) = >>=-eq-ok (decode bytes) (λ a. ok (change a)) c in
        let same : change a ≡ s = cc in subst P same (keep a (inner bytes a d));
  }

  -- The field may stand once more.
  pub Keeps-room :
      {A : Type 0} (limit : Text) (items : List A) (most : ℕ) (x : Read S)
      → (suc (length items) ≤ most → Keeps P x)
      → Keeps P (room limit items most >> x)
  Keeps-room limit items most x keep = elim (Bool-cases (leb most (length items))) [
    | inl full ↦ record { kept = λ s r' h. absurd (ground arith) }
    | inr free ↦ record { kept = λ s r' h. (keep (ground arith)).kept s r' (ground arith) }
  ]

  module _ (step : Step S)
      (keeps : (s : S) (f w : ℕ) (r : Reader) → P s → Keeps P (step s f w r)) where
    each_field-keeps :
        (fuel : ℕ) (s : S) (r : Reader) (t : S) → P s → each_field step fuel s r ≡ ok t → P t
    unfolding each_field
    each_field-keeps zero s r t p h = absurd (ground arith)
    each_field-keeps (suc fuel) s r t p h = elim (Result-cases (read_tag r)) [
      | inr (e, q) ↦ absurd (ground arith)
      | inl ((none, r'), q) ↦ subst P (ground arith) p
      | inl ((some (f, w), r'), q) ↦ elim (Result-cases (step s f w r')) [
        | inr (e, q') ↦ absurd (ground arith)
        | inl ((u, r''), q') ↦
            each_field-keeps fuel u r'' t ((keeps s f w r' p).kept u r'' q') (ground arith)
      ]
    ]

    pub decode_message-keeps :
        (s : S) (bytes : List ℕ) (t : S) → P s → decode_message step s bytes ≡ ok t → P t
    decode_message-keeps s bytes t p h = each_field-keeps (suc (length bytes)) s (new bytes) t p h
