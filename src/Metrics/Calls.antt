-- ===== src/Metrics/Calls.antt =====
-- The calls that the goroutines of a round make on the holder of a namespace, which they share:
-- internal/pkg/metrics/namespaceMetricsHolder.go.
--
-- The lock of the holder makes each call one step, so the calls of all goroutines are one list, in
-- which they are interleaved in some way.
use mathlib.Core.List.{Permᴰ}
use native.Mathlib.Numerals.{unary_clauses}
use go_kube_downscaler.Prelude.{
  ℕ, ◌+◌, ◌≡◌, refl, ap, ◌∙◌, Bool, true, false, List, [], ◌∷◌, none, some, ℤ, pos, ◌+ℤ◌,
  if◌then◌else◌, arith,
}
use go_kube_downscaler.Metrics.{
  SavedResources, NamespaceMetricsHolder, Holder, increment_downscaled, increment_upscaled,
  increment_excluded, increment_invalid_scaling_value_errors, increment_conflict_errors,
  increment_generic_errors, mark_parsing_namespace_scope_error,
  increment_parsing_workload_scope_errors, increment_saved_resources,
}

-- The methods that change a holder.
pub data Call : Type 0 where
  downscaled : Call
  upscaled : Call
  excluded : Call
  invalid_scaling_value : Call
  conflict : Call
  generic : Call
  namespace_scope : Call
  workload_scope : Call
  saved : SavedResources → Call

unfoldable pub call : Call → Holder → Holder
call downscaled h = increment_downscaled h
call upscaled h = increment_upscaled h
call excluded h = increment_excluded h
call invalid_scaling_value h = increment_invalid_scaling_value_errors h
call conflict h = increment_conflict_errors h
call generic h = increment_generic_errors h
call namespace_scope h = mark_parsing_namespace_scope_error h
call workload_scope h = increment_parsing_workload_scope_errors h
call (saved resources) h = increment_saved_resources resources h

unfoldable pub call_all : List Call → Holder → Holder
unfolding call
call_all [] h = h
call_all (c ∷ cs) h = call_all cs (call c h)

-- What a call adds to the counters, and whether it marks the namespace.
record Effect : Type 0 where
  downs : ℕ
  ups : ℕ
  exclusions : ℕ
  invalids : ℕ
  conflicts : ℕ
  generics : ℕ
  marks : Bool
  workloads : ℕ
  memory : ℤ
  cpu : ℤ

abbrev nothing : Effect
nothing = record {
  downs = 0;
  ups = 0;
  exclusions = 0;
  invalids = 0;
  conflicts = 0;
  generics = 0;
  marks = false;
  workloads = 0;
  memory = pos 0;
  cpu = pos 0;
}

abbrev effect : Call → Effect
effect downscaled = record nothing { downs = 1 }
effect upscaled = record nothing { ups = 1 }
effect excluded = record nothing { exclusions = 1 }
effect invalid_scaling_value = record nothing { invalids = 1 }
effect conflict = record nothing { conflicts = 1 }
effect generic = record nothing { generics = 1 }
effect namespace_scope = record nothing { marks = true }
effect workload_scope = record nothing { workloads = 1 }
effect (saved r) = record nothing { memory = r.total_saved_memory; cpu = r.total_saved_cpu }

abbrev add : Effect → NamespaceMetricsHolder → NamespaceMetricsHolder
add e m = record {
  downscaled_workloads = m.downscaled_workloads + e.downs;
  upscaled_workloads = m.upscaled_workloads + e.ups;
  excluded_workloads = m.excluded_workloads + e.exclusions;
  invalid_scaling_value_errors = m.invalid_scaling_value_errors + e.invalids;
  conflict_errors = m.conflict_errors + e.conflicts;
  generic_errors = m.generic_errors + e.generics;
  parsing_namespace_scope_errors = if e.marks then 1 else m.parsing_namespace_scope_errors;
  parsing_workload_scope_errors = m.parsing_workload_scope_errors + e.workloads;
  saved_memory_bytes = m.saved_memory_bytes +ℤ e.memory;
  saved_cpu_cores = m.saved_cpu_cores +ℤ e.cpu;
}

+ℤ-zero : (a : ℤ) → a +ℤ pos 0 ≡ a
unfolding ◌+ℤ◌
+ℤ-zero a = ground arith

+ℤ-swapped : (a b c : ℤ) → a +ℤ b +ℤ c ≡ a +ℤ c +ℤ b
unfolding ◌+ℤ◌
+ℤ-swapped a b c = ground arith

+-swapped : (a b c : ℕ) → a + b + c ≡ a + c + b
+-swapped a b c = omega arith

marked-swapped :
    (a b : Bool) (n : ℕ)
    → (if b then 1 else if a then 1 else n) ≡ (if a then 1 else if b then 1 else n)
marked-swapped true true n = refl
marked-swapped true false n = refl
marked-swapped false true n = refl
marked-swapped false false n = refl

call-effect : (c : Call) (m : NamespaceMetricsHolder) → call c (some m) ≡ some (add (effect c) m)
unfolding call increment_downscaled increment_upscaled increment_excluded
    increment_invalid_scaling_value_errors increment_conflict_errors increment_generic_errors
    mark_parsing_namespace_scope_error increment_parsing_workload_scope_errors
    increment_saved_resources
call-effect downscaled m = simp (unary_clauses, +ℤ-zero) refl
call-effect upscaled m = simp (unary_clauses, +ℤ-zero) refl
call-effect excluded m = simp (unary_clauses, +ℤ-zero) refl
call-effect invalid_scaling_value m = simp (unary_clauses, +ℤ-zero) refl
call-effect conflict m = simp (unary_clauses, +ℤ-zero) refl
call-effect generic m = simp (unary_clauses, +ℤ-zero) refl
call-effect namespace_scope m = simp (unary_clauses, +ℤ-zero) refl
call-effect workload_scope m = simp (unary_clauses, +ℤ-zero) refl
call-effect (saved r) m = simp unary_clauses refl

add-swapped : (e f : Effect) (m : NamespaceMetricsHolder) → add f (add e m) ≡ add e (add f m)
add-swapped e f m =
    rw
      (
        +-swapped m.downscaled_workloads e.downs f.downs,
        +-swapped m.upscaled_workloads e.ups f.ups,
        +-swapped m.excluded_workloads e.exclusions f.exclusions,
        +-swapped m.invalid_scaling_value_errors e.invalids f.invalids,
        +-swapped m.conflict_errors e.conflicts f.conflicts,
        +-swapped m.generic_errors e.generics f.generics,
        marked-swapped e.marks f.marks m.parsing_namespace_scope_errors,
        +-swapped m.parsing_workload_scope_errors e.workloads f.workloads,
        +ℤ-swapped m.saved_memory_bytes e.memory f.memory,
        +ℤ-swapped m.saved_cpu_cores e.cpu f.cpu,
      )
      refl

call-none : (c : Call) → call c none ≡ none
unfolding call increment_downscaled increment_upscaled increment_excluded
    increment_invalid_scaling_value_errors increment_conflict_errors increment_generic_errors
    mark_parsing_namespace_scope_error increment_parsing_workload_scope_errors
    increment_saved_resources
call-none downscaled = refl
call-none upscaled = refl
call-none excluded = refl
call-none invalid_scaling_value = refl
call-none conflict = refl
call-none generic = refl
call-none namespace_scope = refl
call-none workload_scope = refl
call-none (saved r) = refl

call-swapped : (c d : Call) (h : Holder) → call d (call c h) ≡ call c (call d h)
call-swapped c d none = rw (call-none c, call-none d, call-none c) refl
call-swapped c d (some m) =
    rw
      (
        call-effect c m,
        call-effect d m,
        call-effect d (add (effect c) m),
        call-effect c (add (effect d) m),
      )
      (ap (λ n. some n) (add-swapped (effect c) (effect d) m))

-- However the calls of the goroutines of a round are interleaved, the holder of the namespace ends
-- with the same metrics.
pub call_all-reordered :
    {cs ds : List Call} (h : Holder) → Permᴰ cs ds → call_all cs h ≡ call_all ds h
unfolding call_all
call_all-reordered h Permᴰ.nil = refl
call_all-reordered h (Permᴰ.cons {b = d} e p) = rw e (call_all-reordered (call d h) p)
call_all-reordered h (Permᴰ.swap {a' = a'} {b' = b'} {l = cs} e f) =
    rw (e, f) (ap (call_all cs) (call-swapped b' a' h))
call_all-reordered h (Permᴰ.trans p q) = call_all-reordered h p ∙ call_all-reordered h q
