-- ===== src/Search/Order.antt =====
-- memcmp on ids, and the number by which it orders them.
use Prim.Native.Nat.{Ordering, compare}
use lr.Base.{ℕ, ◌+◌, ◌*◌, ◌<◌, ◌≡◌, refl, sym, ap, ap₂, ◌∙◌, ◌⊎◌, inl, inr, List, [], ◌∷◌, arith}

pub Ordering-cases : (o : Ordering) → (o ≡ Ordering.lt) ⊎ ((o ≡ Ordering.eq) ⊎ (o ≡ Ordering.gt))
Ordering-cases Ordering.lt = inl refl
Ordering-cases Ordering.eq = inr (inl refl)
Ordering-cases Ordering.gt = inr (inr refl)

-- memcmp on two blocks of one length
unfoldable pub memcmp : List ℕ → List ℕ → Ordering
memcmp [] [] = Ordering.eq
memcmp [] (y ∷ ys) = Ordering.lt
memcmp (x ∷ xs) [] = Ordering.gt
memcmp (x ∷ xs) (y ∷ ys) =
    let rest : Ordering = memcmp xs ys in
    elim (compare x y) [
      | Ordering.lt ↦ Ordering.lt
      | Ordering.eq ↦ rest
      | Ordering.gt ↦ Ordering.gt
    ]

-- Four bytes as a number, the first the highest.
abbrev pub rank : List ℕ → ℕ
rank (a ∷ (b ∷ (c ∷ (d ∷ [])))) = 16777216 * a + 65536 * b + 256 * c + d
rank _ = 0

-- A list of four bytes.
abbrev pub IsFour : List ℕ → Type 0
IsFour x =
    (a : ℕ) × (b : ℕ) × (c : ℕ) × (d : ℕ) × (x ≡ a ∷ b ∷ c ∷ d ∷ [])
    × (a < 256)
    × (b < 256)
    × (c < 256)
    × (d < 256)

memcmp_four :
    (a b c d e f g h : ℕ)
    → a < 256
    → b < 256
    → c < 256
    → d < 256
    → e < 256
    → f < 256
    → g < 256
    → h < 256
    → memcmp (a ∷ b ∷ c ∷ d ∷ []) (e ∷ f ∷ g ∷ h ∷ [])
      ≡ compare (rank (a ∷ b ∷ c ∷ d ∷ [])) (rank (e ∷ f ∷ g ∷ h ∷ []))
unfolding memcmp
memcmp_four a b c d e f g h ha hb hc hd he hf hg hh = ground arith

pub memcmp-rank : (x y : List ℕ) → IsFour x → IsFour y → memcmp x y ≡ compare (rank x) (rank y)
memcmp-rank x y (a, b, c, d, p, ha, hb, hc, hd) (e, f, g, h, q, he, hf, hg, hh) =
    rw (p, q) (memcmp_four a b c d e f g h ha hb hc hd he hf hg hh)

pub rank_inj : (x y : List ℕ) → IsFour x → IsFour y → rank x ≡ rank y → x ≡ y
rank_inj x y (a, b, c, d, p, ha, hb, hc, hd) (e, f, g, h, q, he, hf, hg, hh) r =
    let r' : rank (a ∷ b ∷ c ∷ d ∷ []) ≡ rank (e ∷ f ∷ g ∷ h ∷ []) =
      ap rank (sym p) ∙ r ∙ ap rank q in
    let e1 : a ≡ e = omega arith in
    let e2 : b ≡ f = omega arith in
    let e3 : c ≡ g = omega arith in
    let e4 : d ≡ h = omega arith in
    p ∙ ap₂ ◌∷◌ e1 (ap₂ ◌∷◌ e2 (ap₂ ◌∷◌ e3 (ap (λ j. j ∷ []) e4))) ∙ sym q

pub rank-lt : (x : List ℕ) → IsFour x → rank x < 4294967296
rank-lt x (a, b, c, d, p, ha, hb, hc, hd) = rw p (omega arith)
