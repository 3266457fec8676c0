-- ===== src/Text/Matching.antt =====
-- Go's `regexp` for the patterns of the program: a matcher lists what it can match from the start
-- of a text and the rest, in the order in which a backtracking search would try it, so the match
-- that Go finds for an anchored pattern is the first of the list.
use go_kube_downscaler.Prelude.{
  ℕ, Bool, not, ◌||◌, List, [], ◌∷◌, ◌++◌, map, Option, none, some, between, ◌==◌, if◌then◌else◌,
}
use go_kube_downscaler.Text.{Text, lower}

abbrev pub Matcher : Type 0 → Type 0
Matcher A = Text → List (A × Text)

abbrev continue : {A B : Type 0} → List (A × Text) → (A → Matcher B) → List (B × Text)
continue [] k = []
continue ((a, rest) ∷ more) k = k a rest ++ continue more k

infixl 5 ◌>>=◌
abbrev pub ◌>>=◌ : {A B : Type 0} → Matcher A → (A → Matcher B) → Matcher B
◌>>=◌ m k s = continue (m s) k

infixl 5 ◌>>◌
abbrev pub ◌>>◌ : {A B : Type 0} → Matcher A → Matcher B → Matcher B
m >> n = m >>= λ _. n

abbrev pub give : {A : Type 0} → A → Matcher A
give a s = (a, s) ∷ []

-- One character of a class.
unfoldable pub one : (ℕ → Bool) → Matcher ℕ
one p [] = []
one p (c ∷ s) = if p c then (c, s) ∷ [] else []

-- `p*`: as many as there are first, then fewer.
unfoldable pub many : (ℕ → Bool) → Matcher Text
many p [] = ([], []) ∷ []
many p (c ∷ s) =
    let rest = map (λ (r : Text × Text). (c ∷ r.0, r.1)) (many p s) in
    if p c then rest ++ ([], c ∷ s) ∷ [] else ([], c ∷ s) ∷ []

-- `p+`.
unfoldable pub some_of : (ℕ → Bool) → Matcher Text
unfolding one many
some_of p = do c ← one p; cs ← many p; give (c ∷ cs)

-- `m?`.
abbrev pub optional : {A : Type 0} → Matcher A → Matcher (Option A)
optional m s = (m >>= λ a. give (some a)) s ++ (none, s) ∷ []

-- `m|n`.
abbrev pub either : {A : Type 0} → Matcher A → Matcher A → Matcher A
either m n s = m s ++ n s

-- `$`: the end of the text.
unfoldable pub end : Matcher (Unit {0})
end [] = (tt, []) ∷ []
end (c ∷ s) = []

-- A literal, in any case.
unfoldable pub word : Text → Matcher Text
unfolding one
word [] = give []
word (c ∷ t) = do d ← one (λ x. lower x == c); ds ← word t; give (d ∷ ds)

abbrev first : {A : Type 0} → List (A × Text) → Option A
first [] = none
first ((a, rest) ∷ more) = some a

-- `FindStringSubmatch`.
abbrev pub find_submatch : {A : Type 0} → Matcher A → Text → Option A
find_submatch m s = first (m s)

abbrev pub is_digit : ℕ → Bool
is_digit c = between b'0' b'9' c

-- `\s`.
abbrev pub is_blank : ℕ → Bool
is_blank c = c == 9 || c == 10 || c == 12 || c == 13 || c == b' '

-- `.`.
abbrev pub is_any : ℕ → Bool
is_any c = not (c == 10)
