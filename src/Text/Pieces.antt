-- ===== src/Text/Pieces.antt =====
-- Texts made of pieces with a separator between them, and how they are taken apart.
use int_platform_dpdk.Base.{
  ℕ, ◌≡◌, refl, ap, ◌∙◌, List, [], ◌∷◌, ◌++◌, Bool, true, false, not, ◌&&◌, ◌==◌, if◌then◌else◌,
  arith, Bool-cases, inl, inr,
}

-- The character is nowhere in the text.
unfoldable pub lacks : ℕ → List ℕ → Bool
lacks c [] = true
lacks c (d ∷ text) = not (d == c) && lacks c text

pub lacks-append : (c : ℕ) (xs ys : List ℕ) → lacks c (xs ++ ys) ≡ (lacks c xs && lacks c ys)
unfolding lacks
lacks-append c [] ys = refl
lacks-append c (x ∷ xs) ys = ground (arith, lacks-append c xs ys)

-- One more character at the front of the first piece.
unfoldable pub cons_head : ℕ → List (List ℕ) → List (List ℕ)
cons_head d [] = (d ∷ []) ∷ []
cons_head d (p ∷ ps) = (d ∷ p) ∷ ps

unfoldable pub pieces : ℕ → List ℕ → List (List ℕ)
unfolding cons_head
pieces c [] = [] ∷ []
pieces c (d ∷ text) = let rest = pieces c text in if d == c then [] ∷ rest else cons_head d rest

unfoldable pub join : ℕ → List (List ℕ) → List ℕ
join c [] = []
join c (x ∷ []) = x
join c (x ∷ y ∷ xs) = x ++ (c ∷ join c (y ∷ xs))

-- Every piece lacks the character.
unfoldable pub all_lack : ℕ → List (List ℕ) → Bool
all_lack c [] = true
all_lack c (x ∷ xs) = lacks c x && all_lack c xs

pub pieces_last : (c : ℕ) (x : List ℕ) → lacks c x ≡ true → pieces c x ≡ x ∷ []
unfolding pieces lacks
pieces_last c [] h = refl
pieces_last c (d ∷ x) h = ground (arith, pieces_last c x)

pub pieces_first :
    (c : ℕ) (x rest : List ℕ) → lacks c x ≡ true → pieces c (x ++ (c ∷ rest)) ≡ x ∷ pieces c rest
unfolding pieces lacks
pieces_first c [] rest h = ground arith
pieces_first c (d ∷ x) rest h = ground (arith, pieces_first c x rest)

pub pieces-join :
    (c : ℕ) (x : List ℕ) (xs : List (List ℕ))
    → all_lack c (x ∷ xs) ≡ true
    → pieces c (join c (x ∷ xs)) ≡ x ∷ xs
unfolding join all_lack
pieces-join c x [] h = pieces_last c x (ground arith)
pieces-join c x (y ∷ xs) h =
    pieces_first c x (join c (y ∷ xs)) (ground arith)
    ∙ ap (λ ps. x ∷ ps) (pieces-join c y xs (ground arith))

pub lacks-join :
    (d c : ℕ) (xs : List (List ℕ))
    → (c == d) ≡ false
    → all_lack d xs ≡ true
    → lacks d (join c xs) ≡ true
unfolding join all_lack lacks
lacks-join d c [] ne h = refl
lacks-join d c (x ∷ []) ne h = ground arith
lacks-join d c (x ∷ y ∷ xs) ne h =
    ground (arith, lacks-append d x (c ∷ join c (y ∷ xs)), lacks-join d c (y ∷ xs) ne)

pub pieces_cons :
    (c : ℕ) (text : List ℕ) → (p : List ℕ) × (ps : List (List ℕ)) × (pieces c text ≡ p ∷ ps)
unfolding pieces
pieces_cons c [] = ([], [], refl)
pieces_cons c (d ∷ text) =
    let (p, ps, e) = pieces_cons c text in
    elim (Bool-cases (d == c)) [
      | inl here ↦ ([], pieces c text, rw here)
      | inr other ↦ (d ∷ p, ps, rw (other, e) refl)
    ]
