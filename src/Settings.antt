-- ===== src/Settings.antt =====
-- The values of flags and of environment variables: regexList.go, stringlistValue.go, env.go and
-- ParseConfigEnvVars of config.go in internal/pkg/util.
--
-- `compile` is regexp.Compile; what it gives is the test that the expression makes of a text.
-- `environment` is os.LookupEnv.
pub mod Exclusions
use go_kube_downscaler.Prelude.{Bool, List, [], ◌∷◌, map, Option, none, some, String}
use go_kube_downscaler.Fault.{Fault, Result, ok, err}
use go_kube_downscaler.Text.{Text, trim_space, split}
use go_kube_downscaler.Scalable.Filter.{RegexList}

-- `strings.Split` at commas.
abbrev pub entries_of : Text → List Text
unfolding split
entries_of text = let (first, rest) = split b',' text in first ∷ rest

-- `StringListValue.Set`.
unfoldable pub set_string_list : Text → List Text
unfolding split trim_space
set_string_list text = map trim_space (entries_of text)

-- `toSet`, of which only the members matter.
abbrev pub to_set : List Text → List Text
to_set items = items

-- `GetEnvValue`: a variable that is not there leaves the value as it is.
abbrev pub get_env_value :
    {V : Type 0} → (Text → V × Option Fault) → Option Text → V → V × Option Fault
get_env_value set none value = (value, none)
get_env_value set (some text) value = set text

-- The part of `CommonRuntimeConfiguration` that the environment sets.
pub record Exclusion : Type 0 where
  pub exclude_namespaces : RegexList
  pub exclude_workloads : RegexList

module _ (compile : Text → Result (Text → Bool)) where
  abbrev pub append_compiled :
      Result (Text → Bool) → List (Text → Bool) × Option Fault → List (Text → Bool) × Option Fault
  append_compiled (err e) rest = ([], some e)
  append_compiled (ok re) (regexes, e) = (re ∷ regexes, e)

  -- The loop ends at the first entry that is no expression, and keeps those before it.
  unfoldable pub compile_all : List Text → List (Text → Bool) × Option Fault
  unfolding trim_space
  compile_all [] = ([], none)
  compile_all (entry ∷ entries) = append_compiled (compile (trim_space entry)) (compile_all entries)

  abbrev pub list_of : List (Text → Bool) × Option Fault → RegexList × Option Fault
  list_of (regexes, e) = (some regexes, e)

  -- `RegexList.Set`.
  unfoldable pub set_regex_list : Text → RegexList × Option Fault
  unfolding compile_all split
  set_regex_list text = list_of (compile_all (entries_of text))

  abbrev pub with_workloads : Exclusion → RegexList × Option Fault → Exclusion × Option Fault
  with_workloads c (workloads, e) = (record c { exclude_workloads = workloads }, e)

  abbrev pub with_namespaces :
      Option Text → Exclusion → RegexList × Option Fault → Exclusion × Option Fault
  unfolding set_regex_list
  with_namespaces variable c (namespaces, some e) =
      (record c { exclude_namespaces = namespaces }, some e)
  with_namespaces variable c (namespaces, none) =
      with_workloads (record c { exclude_namespaces = namespaces })
        (get_env_value set_regex_list variable c.exclude_workloads)

  -- `ParseConfigEnvVars`.
  unfoldable pub parse_config_env_vars :
      (String → Option Text) → Exclusion → Exclusion × Option Fault
  unfolding set_regex_list
  parse_config_env_vars environment c =
      with_namespaces (environment "EXCLUDE_DEPLOYMENTS") c
        (get_env_value set_regex_list (environment "EXCLUDE_NAMESPACES") c.exclude_namespaces)
