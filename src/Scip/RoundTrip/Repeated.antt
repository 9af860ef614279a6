-- ===== src/Scip/RoundTrip/Repeated.antt =====
-- Fields that repeat: a list written one item a field, and collected again by the step of a decoder
-- (src/scip_decoder.rs), which refuses an item that the limit has no room for.
use mathlib.Core.List.{append_assoc, append-nil}
use mathlib.Core.Path.{subst}
use workspace_atlas.Common.{
  ℕ, ◌+◌, ◌^◌, ◌≤◌, ◌<◌, false, List, [], ◌∷◌, ◌++◌, Text, ◌>>◌, leb, ◌≡◌, refl, sym, ap, ◌∙◌,
  arith, length, length-append, All,
}
use workspace_atlas.Scip.Reader.{Reader, Read}
use workspace_atlas.Scip.Fields.{Step}
use workspace_atlas.Scip.Index.{room}
use workspace_atlas.Scip.RoundTrip.{Takes, delimited, Feeds}
use workspace_atlas.Scip.RoundTrip.Relationships.{
  Field, encode_fields, delimited_field, Takes-after,
}

abbrev pub repeated : {X : Type 0} → ℕ → (X → List ℕ) → List X → List Field
repeated number encode [] = []
repeated number encode (x ∷ xs) = delimited_field number (encode x) ∷ repeated number encode xs

pub All-both :
    {X : Type 0} (P Q : X → Type 0) (xs : List X) → All P xs → All Q xs → All (λ x. P x × Q x) xs
All-both P Q [] p q = tt
All-both P Q (x ∷ xs) p q = ((p.0, q.0), All-both P Q xs p.1 q.1)

-- `room` lets an item through that the list has room for.
pub Takes-room :
    {X S : Type 0} (limit : Text) (items : List X) (most : ℕ) (read : Reader → Read S)
    (payload : List ℕ) (s : S)
    → length items < most
    → Takes read payload s
    → Takes (λ r. room limit items most >> read r) payload s
Takes-room limit items most read payload s free takes =
    let free' : leb most (length items) ≡ false = ground arith in
    Takes-after (room limit items most) read payload s (rw free' refl) takes

-- A list in a message, with how it is set.
pub record Collected (S X : Type 0) : Type 0 where
  pub items : S → List X
  pub put : S → List X → S
  pub items-put : (s : S) (xs : List X) → items (put s xs) ≡ xs
  pub put-put : (s : S) (xs ys : List X) → put (put s xs) ys ≡ put s ys
  pub put-items : (s : S) → put s (items s) ≡ s

module _ {S X : Type 0} (step : Step S) (list : Collected S X) (number most : ℕ)
    (encode : X → List ℕ) (Good : X → Type 0) (small : number < 2 ^ 32)
    (takes : (s : S) (x : X)
      → Good x
      → length (list.items s) < most
      → Takes (step s number 2) (delimited (encode x)) (list.put s (list.items s ++ x ∷ []))) where
  pub repeated-Feeds :
      (s : S) (xs : List X) (rest : List Field) (t : S)
      → length (list.items s) + length xs ≤ most
      → All Good xs
      → Feeds step (list.put s (list.items s ++ xs)) (encode_fields rest) t
      → Feeds step s (encode_fields (repeated number encode xs ++ rest)) t
  repeated-Feeds s [] rest t few good feeds =
      subst (λ s'. Feeds step s' (encode_fields rest) t)
        (ap (list.put s) (append-nil (list.items s)) ∙ list.put-items s) feeds
  repeated-Feeds s (x ∷ xs) rest t few good feeds =
      let more = list.items s ++ x ∷ [] in
      let next = list.put s more in
      let now = list.items-put s more in
      let same : list.put next (list.items next ++ xs) ≡ list.put s (list.items s ++ x ∷ xs) =
        ap (λ is. list.put next (is ++ xs)) now
        ∙ list.put-put s more (more ++ xs)
        ∙ ap (list.put s) (append_assoc (list.items s) (x ∷ []) xs) in
      let one = length-append (list.items s) (x ∷ []) in
      Feeds.field {t = next} number 2 (delimited (encode x)) _ small (omega arith)
        (takes s x good.0 (omega arith))
        (repeated-Feeds next xs rest t (omega (arith, ap length now)) good.1
          (subst (λ s'. Feeds step s' (encode_fields rest) t) (sym same) feeds))
