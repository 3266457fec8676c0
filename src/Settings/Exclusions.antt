-- ===== src/Settings/Exclusions.antt =====
-- Which texts the expressions of the environment match.
use go_kube_downscaler.Prelude.{
  ◌≡◌, ◌↔◌, refl, sym, ap, ◌∙◌, Bool, true, any, Any, inl, inr, Bool-cases, List, [], ◌∷◌, Option,
  none, some, String, arith,
}
use go_kube_downscaler.Fault.{Fault, Result, ok, err, ok-injective}
use go_kube_downscaler.Text.{Text, codes, trim_space}
use go_kube_downscaler.Scalable.Filter.{RegexList, Listed, check_matches_any, is_namespace_excluded}
use go_kube_downscaler.Settings.{
  Exclusion, entries_of, get_env_value, append_compiled, compile_all, set_regex_list,
  with_namespaces, parse_config_env_vars,
}

module _ (compile : Text → Result (Text → Bool)) (text : Text) where
  -- The entry is an expression that matches the text.
  abbrev pub Matches : Text → Type 0
  Matches entry =
      (matches : Text → Bool) × (compile (trim_space entry) ≡ ok matches) × (matches text ≡ true)

  appended :
      (entry : Text) (entries : List Text) (r : Result (Text → Bool))
      (rest : List (Text → Bool) × Option Fault)
      → compile (trim_space entry) ≡ r
      → (rest.1 ≡ none → any (λ matches. matches text) rest.0 ≡ true ↔ Any Matches entries)
      → (append_compiled compile r rest).1 ≡ none
      → any (λ matches. matches text) (append_compiled compile r rest).0 ≡ true
        ↔ Any Matches (entry ∷ entries)
  appended entry entries (err e) rest c h n = cc n
  appended entry entries (ok matches) (regexes, e) c h n = (
    λ a. elim (Bool-cases (matches text)) [
      | inl y ↦ inl (matches, c, y)
      | inr o ↦ inr ((h n).0 (rw o at a))
    ],
    λ a. elim a [
      | inl (m, k, y) ↦ rw (ap (λ (f : Text → Bool). f text) (ok-injective (sym c ∙ k)) ∙ y) refl
      | inr b ↦ ground (arith, (h n).1 b)
    ],
  )

  compile_all_iff :
      (entries : List Text)
      → (compile_all compile entries).1 ≡ none
      → any (λ matches. matches text) (compile_all compile entries).0 ≡ true ↔ Any Matches entries
  unfolding compile_all
  compile_all_iff [] n = ((λ e. cc e), (λ a. absurd a))
  compile_all_iff (entry ∷ entries) n =
      appended entry entries (compile (trim_space entry)) (compile_all compile entries) refl
        (compile_all_iff entries) n

module _ (compile : Text → Result (Text → Bool)) where
  with_namespaces-first :
      (variable : Option Text) (c : Exclusion) (r : RegexList × Option Fault)
      → (with_namespaces compile variable c r).1 ≡ none
      → (r.1 ≡ none) × ((with_namespaces compile variable c r).0.exclude_namespaces ≡ r.0)
  unfolding with_namespaces
  with_namespaces-first variable c (namespaces, some e) n = cc n
  with_namespaces-first variable c (namespaces, none) n = (refl, refl)

  -- Where the environment is read without an error, a workload is in an excluded namespace just
  -- where one of the entries between the commas of EXCLUDE_NAMESPACES, without the white space
  -- around it, compiles, as it is and with no anchors added, to an expression that matches the name
  -- of its namespace. The variable is set.
  pub parse_config_env_vars-excludes :
      (environment : String → Option Text) (c : Exclusion) (variable : Text) (w : Listed)
      → environment "EXCLUDE_NAMESPACES" ≡ some variable
      → (parse_config_env_vars compile environment c).1 ≡ none
      → is_namespace_excluded w (parse_config_env_vars compile environment c).0.exclude_namespaces
          ≡ true
        ↔ Any (Matches compile (codes w.namespace)) (entries_of variable)
  unfolding parse_config_env_vars set_regex_list is_namespace_excluded check_matches_any
  parse_config_env_vars-excludes environment c variable w e n =
      let read =
        λ (o : Option Text). get_env_value (set_regex_list compile) o c.exclude_namespaces in
      let (failed, kept) =
        with_namespaces-first (environment "EXCLUDE_DEPLOYMENTS") c
          (read (environment "EXCLUDE_NAMESPACES")) n in
      rw (kept ∙ ap (λ o. (read o).0) e) (
        compile_all_iff compile (codes w.namespace) (entries_of variable)
          (sym (ap (λ o. (read o).1) e) ∙ failed))
