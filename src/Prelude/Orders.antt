-- ===== src/Prelude/Orders.antt =====
-- What does not depend on the order of a list.
use mathlib.Core.Path.{subst}
use mathlib.Core.Logic.{inl, inr}
use mathlib.Core.List.{List, Permᴰ}
use go_kube_downscaler.Prelude.Lists.{All, Any}

-- A predicate on all elements holds in every order.
pub All-reordered {ℓ κ} :
    {A : Type ℓ} (P : A → Type κ) {xs ys : List A} → Permᴰ xs ys → All P xs → All P ys
All-reordered P Permᴰ.nil h = h
All-reordered P (Permᴰ.cons e d) (h, hs) = (subst P e h, All-reordered P d hs)
All-reordered P (Permᴰ.swap e f) (h, (i, hs)) = (subst P f i, (subst P e h, hs))
All-reordered P (Permᴰ.trans d e) h = All-reordered P e (All-reordered P d h)

-- So does a predicate on some element.
pub Any-reordered {ℓ} :
    {A : Type ℓ} (P : A → Type 0) {xs ys : List A} → Permᴰ xs ys → Any P xs → Any P ys
Any-reordered P Permᴰ.nil h = h
Any-reordered P (Permᴰ.cons e d) (inl h) = inl (subst P e h)
Any-reordered P (Permᴰ.cons e d) (inr h) = inr (Any-reordered P d h)
Any-reordered P (Permᴰ.swap e f) (inl h) = inr (inl (subst P e h))
Any-reordered P (Permᴰ.swap e f) (inr (inl h)) = inl (subst P f h)
Any-reordered P (Permᴰ.swap e f) (inr (inr h)) = inr (inr h)
Any-reordered P (Permᴰ.trans d e) h = Any-reordered P e (Any-reordered P d h)
