-- ===== src/Route/Encoder/Framing.antt =====
-- The frames of `CanonicalEncoder` (src/context_route.rs) can be told apart.
use workspace_atlas.Common.{
  ℕ, zero, suc, ◌<◌, ◌≡◌, refl, List, [], ◌∷◌, ◌++◌, length, arith, length-append, ap, sym, ◌∙◌,
}
use workspace_atlas.Route.Encoder.{CanonicalEncoder, be_bytes, bytes, u64}

be_bytes-injective :
    (n m : ℕ)
    → n < 18446744073709551616
    → m < 18446744073709551616
    → be_bytes 8 n ≡ be_bytes 8 m
    → n ≡ m
unfolding be_bytes
be_bytes-injective n m a b h = ground arith

-- Equal lists, cut at the same place.
append-injective {ℓ} :
    {A : Type ℓ} (xs zs ys ws : List A)
    → length xs ≡ length zs
    → xs ++ ys ≡ zs ++ ws
    → (xs ≡ zs) × (ys ≡ ws)
append-injective [] [] ys ws e h = (refl, h)
append-injective [] (z ∷ zs) ys ws e h = absurd (omega (arith, e))
append-injective (x ∷ xs) [] ys ws e h = absurd (omega (arith, e))
append-injective (x ∷ xs) (z ∷ zs) ys ws e h =
    let (same, rest) = append-injective xs zs ys ws (omega (arith, e)) (cc h) in
    (cc (h, same), rest)

-- The same, for ends of the same length.
append-injective_end {ℓ} :
    {A : Type ℓ} (xs zs ys ws : List A)
    → length ys ≡ length ws
    → xs ++ ys ≡ zs ++ ws
    → (xs ≡ zs) × (ys ≡ ws)
append-injective_end xs zs ys ws e h =
    append-injective xs zs ys ws
      (omega (arith, e, length-append xs ys, length-append zs ws, ap length h)) h

length-be_bytes : (k n : ℕ) → length (be_bytes k n) ≡ k
unfolding be_bytes
length-be_bytes zero n = refl
length-be_bytes (suc k) n = ap suc (length-be_bytes k n)

abbrev frame : ℕ → List ℕ
frame v = be_bytes 8 (length (be_bytes 8 v)) ++ be_bytes 8 v

length-frame : (v : ℕ) → length (frame v) ≡ 16
length-frame v = omega (
  arith,
  length-append (be_bytes 8 (length (be_bytes 8 v))) (be_bytes 8 v),
  length-be_bytes 8 (length (be_bytes 8 v)),
  length-be_bytes 8 v,
)

-- The last `u64` that an encoder was given can be read off, and what it was given before.
pub u64-injective :
    (v w : ℕ) (e f : CanonicalEncoder)
    → v < 18446744073709551616
    → w < 18446744073709551616
    → (u64 v e).fed ≡ (u64 w f).fed
    → (v ≡ w) × (e.fed ≡ f.fed)
unfolding u64 bytes
u64-injective v w e f a b h =
    let (before, last) =
      append-injective_end e.fed f.fed (frame v) (frame w) (length-frame v ∙ sym (length-frame w))
        h in
    let (counts, values) =
      append-injective_end (be_bytes 8 (length (be_bytes 8 v))) (be_bytes 8 (length (be_bytes 8 w)))
        (be_bytes 8 v) (be_bytes 8 w) (length-be_bytes 8 v ∙ sym (length-be_bytes 8 w)) last in
    (be_bytes-injective v w a b values, before)
