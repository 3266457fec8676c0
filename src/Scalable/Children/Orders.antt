-- ===== src/Scalable/Children/Orders.antt =====
-- The children do not depend on the order in which the goroutines are through.
use mathlib.Core.Path.{subst}
use mathlib.Core.List.{Permᴰ}
use go_kube_downscaler.Prelude.{
  ◌≡◌, refl, ap, inl, inr, false, List, [], ◌∷◌, Any, Any-reordered, String,
}
use go_kube_downscaler.Fault.{Fault, Result, ok, err, is_ok}
use go_kube_downscaler.Scalable.Children.{append, joined_or, gather, get_children}

module _ {R : Type 0} (get : String → Result R) where
  -- Each name is answered by the workload at its place.
  abbrev pub Answered : List String → List R → Type 0
  Answered [] [] = Unit
  Answered [] (w ∷ ws) = ⊥
  Answered (n ∷ ns) [] = ⊥
  Answered (n ∷ ns) (w ∷ ws) = (get n ≡ ok w) × Answered ns ws

  abbrev pub Fails : String → Type 0
  Fails n = is_ok (get n) ≡ false

  -- The children are the answers for all active jobs, in some order, or a job could not be got.
  abbrev pub AreChildren : List String → Result (List R) → Type 0
  AreChildren active (ok ws) = (children : List R) × Answered active children × Permᴰ children ws
  AreChildren active (err e) = Any Fails active

  Answered-reordered :
      {ns ms : List String} (ws : List R)
      → Permᴰ ns ms
      → Answered ns ws
      → (vs : List R) × Answered ms vs × Permᴰ vs ws
  Answered-reordered [] Permᴰ.nil h = ([], h, Permᴰ.nil)
  Answered-reordered (w ∷ ws) Permᴰ.nil h = absurd h
  Answered-reordered [] (Permᴰ.cons e d) h = absurd h
  Answered-reordered (w ∷ ws) (Permᴰ.cons e d) (h, hs) =
      let (vs, a, p) = Answered-reordered ws d hs in
      (w ∷ vs, (subst (λ n. get n ≡ ok w) e h, a), Permᴰ.cons refl p)
  Answered-reordered [] (Permᴰ.swap e f) h = absurd h
  Answered-reordered (w ∷ []) (Permᴰ.swap e f) (h, i) = absurd i
  Answered-reordered (w ∷ v ∷ ws) (Permᴰ.swap e f) (h, (i, hs)) = (
    v ∷ w ∷ ws,
    (subst (λ n. get n ≡ ok v) f i, (subst (λ n. get n ≡ ok w) e h, hs)),
    Permᴰ.swap refl refl,
  )
  Answered-reordered ws (Permᴰ.trans d e) h =
      let (vs, a, p) = Answered-reordered ws d h in
      let (us, b, q) = Answered-reordered vs e a in (us, b, Permᴰ.trans q p)

  -- What has been gathered: an answer for each name, or a failure.
  abbrev Gathers : List String → List R × List Fault → Type 0
  Gathers ns (ws, []) = Answered ns ws
  Gathers ns (ws, e ∷ es) = Any Fails ns

  Gathers-append :
      (n : String) (ns : List String) (a : Result R) (r : List R × List Fault)
      → get n ≡ a
      → Gathers ns r
      → Gathers (n ∷ ns) (append a r)
  Gathers-append n ns (ok w) (ws, []) e h = (e, h)
  Gathers-append n ns (ok w) (ws, f ∷ fs) e h = inr h
  Gathers-append n ns (err f) (ws, fs) e h = inl (ap is_ok e)

  Gathers-gather : (ns : List String) → Gathers ns (gather get ns)
  unfolding gather
  Gathers-gather [] = tt
  Gathers-gather (n ∷ ns) = Gathers-append n ns (get n) (gather get ns) refl (Gathers-gather ns)

  AreChildren-joined :
      {finished active : List String} (r : List R × List Fault)
      → Permᴰ finished active
      → Gathers finished r
      → AreChildren active (joined_or r)
  AreChildren-joined (ws, []) p h = Answered-reordered ws p h
  AreChildren-joined (ws, e ∷ es) p h = Any-reordered Fails p h

  -- In whatever order the goroutines are through, the children of a cron job are one answer for
  -- each of its active jobs, or the call fails and one of the jobs could not be got.
  pub get_children-AreChildren :
      (finished active : List String)
      → Permᴰ finished active
      → AreChildren active (get_children get finished)
  unfolding get_children
  get_children-AreChildren finished active p =
      AreChildren-joined (gather get finished) p (Gathers-gather finished)
