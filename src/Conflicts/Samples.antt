-- ===== src/Conflicts/Samples.antt =====
-- The theorems about write conflicts at concrete paths.
use esaa_event_sourcing_agen.Prelude.{
  String, true, false, ◌||◌, [], ◌∷◌, ◌++◌, ◌≡◌, ◌≢◌, refl, arith, eq_iff, any, strip, to_slashes,
  drop_dots, ends_in_slash, has_prefix,
}
use esaa_event_sourcing_agen.Prelude.Sorting.{sort_by}
use esaa_event_sourcing_agen.Conflicts.{
  normalize_rel_path, normal_paths, normalize_write_set, conflict_between_sets, explain_conflict,
  distinct, is_prefix_conflict,
}
use esaa_event_sourcing_agen.Conflicts.Pairs.{
  clash_with_any, conflict_between_sets-any, conflict_between_sets-append,
}
use esaa_event_sourcing_agen.Conflicts.Symmetry.{conflict_between_sets_comm, nested_directories}

program : Unit {0}
unfolding strip to_slashes drop_dots ends_in_slash has_prefix sort_by normalize_rel_path
    normal_paths normalize_write_set conflict_between_sets explain_conflict distinct
    is_prefix_conflict
program = tt

normalized : normalize_write_set ("./b\\c " ∷ "a" ∷ "" ∷ "a" ∷ []) ≡ "a" ∷ "b/c" ∷ []
unfolding program
normalized = refl

conflict_between_sets-any_example :
    conflict_between_sets ("docs/" ∷ []) ("./docs/x.md" ∷ [])
    ≡ any (clash_with_any (normal_paths ("./docs/x.md" ∷ []))) (normal_paths ("docs/" ∷ []))
conflict_between_sets-any_example = conflict_between_sets-any ("docs/" ∷ []) ("./docs/x.md" ∷ [])

conflict_between_sets-append_example :
    conflict_between_sets (("a" ∷ []) ++ ("b" ∷ [])) ("b" ∷ [])
    ≡ (conflict_between_sets ("a" ∷ []) ("b" ∷ []) || conflict_between_sets ("b" ∷ []) ("b" ∷ []))
conflict_between_sets-append_example = conflict_between_sets-append ("a" ∷ []) ("b" ∷ []) ("b" ∷ [])

conflict_between_sets_comm_example :
    conflict_between_sets ("docs/" ∷ []) ("docs/x.md" ∷ [])
    ≡ conflict_between_sets ("docs/x.md" ∷ []) ("docs/" ∷ [])
unfolding program
conflict_between_sets_comm_example =
    conflict_between_sets_comm ("docs/" ∷ []) ("docs/x.md" ∷ []) refl

distinct_names : ◌≢◌ {A = String} "src/" "src/a/"
distinct_names = ground (arith, eq_iff "src/" "src/a/")

nested_directories_example :
    (conflict_between_sets ("src/" ∷ []) ("src/a/" ∷ []) ≡ true)
    × (conflict_between_sets ("src/a/" ∷ []) ("src/" ∷ []) ≡ false)
unfolding program
nested_directories_example =
    nested_directories "src/" "src/a/" refl refl refl refl refl refl distinct_names
