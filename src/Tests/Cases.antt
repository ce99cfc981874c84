-- ===== src/Tests/Cases.antt =====
-- The cases of the device's tests: runs, and the theorems at concrete inputs.
use app_flow.Prelude.{
  ℕ, ◌≤◌, ◌≡◌, refl, true, false, Option, none, some, List, [], ◌∷◌, arith, Text, codes, length,
  get_elem?,
}
use app_flow.Vectors.Data.{Libraries, Parameter}
use app_flow.Vectors.Select.{
  last_or, number_of_required_tests, select_argument_combinations, sample_arguments, sample_from,
}
use app_flow.Vectors.Merge.{merge_item, merge_items, combine_merge}
use app_flow.Vectors.Cases.{manifest_cases, drafts_from, manifest_envelope_cases}
use app_flow.Vectors.Combinations.{IsLongest, select_argument_combinations-IsLongest}
use app_flow.Vectors.Combinations.{select_argument_combinations-sample_arguments}
use app_flow.Vectors.Merged.{merged, combine_merge-merged}
use app_flow.Vectors.Data.{Sample}
use app_flow.Vectors.Cases.{
  create_envelope_testcase, get_merkle_tree_element, manifest_payload_cases,
}
use app_flow.Vectors.Signatures.{encoded, manifest_envelope_cases-manifest_payload_cases}
use app_flow.Tests.Samples.{small_tree, small_index}
use app_flow.Sign.{lookup}

abbrev number : List Text → Parameter Text
number values = record { type = codes "UInt8"; sample_values = values }

-- Three values, one, and none.
abbrev parameters : List (Parameter Text)
parameters =
    number (codes "a" ∷ codes "b" ∷ codes "c" ∷ []) ∷ number (codes "d" ∷ []) ∷ number [] ∷ []

three_cases :
    select_argument_combinations parameters
    ≡ (some 0 ∷ some 0 ∷ none ∷ [])
      ∷ (some 1 ∷ some 0 ∷ none ∷ [])
      ∷ (some 2 ∷ some 0 ∷ none ∷ [])
      ∷ []
unfolding select_argument_combinations number_of_required_tests last_or
three_cases = refl

second_case :
    sample_arguments parameters (some 1 ∷ some 0 ∷ none ∷ [])
    ≡ some (codes "b") ∷ some (codes "d") ∷ none ∷ []
unfolding sample_from
second_case = refl

three_tests : number_of_required_tests parameters ≡ 3
unfolding number_of_required_tests
three_tests = refl

select_argument_combinations-sample_arguments_example :
    (chosen : List (Option ℕ)) × (get_elem? (select_argument_combinations parameters) 2
      ≡ some chosen)
    × (get_elem? (sample_arguments parameters chosen) 0 ≡ some (some (codes "c")))
    × (length (select_argument_combinations parameters) ≡ number_of_required_tests parameters)
    × (3 ≤ number_of_required_tests parameters)
select_argument_combinations-sample_arguments_example =
    select_argument_combinations-sample_arguments parameters 2 0
      (number (codes "a" ∷ codes "b" ∷ codes "c" ∷ [])) (omega (arith, three_tests)) refl
      (omega arith)

select_argument_combinations-IsLongest_example :
    IsLongest parameters (length (select_argument_combinations parameters))
select_argument_combinations-IsLongest_example = select_argument_combinations-IsLongest parameters

one_case : select_argument_combinations {V = Text} [] ≡ [] ∷ []
unfolding select_argument_combinations number_of_required_tests last_or
one_case = refl

-- Libraries on texts: the source's value overwrites the target's.
abbrev simple : Libraries
simple = record {
  Value = Text;
  string_value = λ s. s;
  is_same = λ a b. false;
  is_mergeable_object = λ item. true;
  clone = λ item. item;
  merge = λ old item. item;
  merge_transaction = λ merge tx partial. record tx {
    script = partial.script;
    arguments = merge tx.arguments partial.arguments;
  };
  encode_key = λ key sig hash weight. [];
  encode_payload = λ tx. tx.script;
  encode_envelope = λ tx. tx.script;
  sha256 = λ s. s;
}

abbrev items : List Text → List (Option Text)
items [] = []
items (t ∷ ts) = some t ∷ items ts

shorter_source :
    combine_merge simple (items (codes "x" ∷ codes "y" ∷ [])) (items (codes "z" ∷ []))
    ≡ items (codes "z" ∷ codes "y" ∷ [])
unfolding combine_merge merge_items merge_item
shorter_source = refl

combine_merge-merged_example :
    combine_merge simple (items (codes "x" ∷ [])) (items (codes "y" ∷ codes "z" ∷ []))
    ≡ merged simple (items (codes "x" ∷ [])) (items (codes "y" ∷ codes "z" ∷ []))
combine_merge-merged_example =
    combine_merge-merged simple (items (codes "x" ∷ [])) (items (codes "y" ∷ codes "z" ∷ []))
      ((λ e. cc), tt) (refl, (refl, tt))

-- A template whose script has, by `simple`, a hash that the small index holds.
abbrev template : Sample Text
template = record {
  id = codes "T.1";
  name = codes "Test";
  source = codes "0123456789abcdef";
  arguments = number (codes "a" ∷ codes "b" ∷ []) ∷ [];
}

two_envelopes :
    encoded simple (manifest_envelope_cases simple small_index small_tree (template ∷ []) [])
    ≡ some (codes "0123456789abcdef" ∷ codes "0123456789abcdef" ∷ [])
unfolding manifest_cases drafts_from create_envelope_testcase get_merkle_tree_element lookup
    select_argument_combinations number_of_required_tests
two_envelopes = refl

manifest_envelope_cases-manifest_payload_cases_example :
    encoded simple
      (manifest_payload_cases simple small_index small_tree (template ∷ []) (template ∷ []))
    ≡ encoded simple
        (manifest_envelope_cases simple small_index small_tree (template ∷ []) (template ∷ []))
manifest_envelope_cases-manifest_payload_cases_example =
    manifest_envelope_cases-manifest_payload_cases simple (λ tx partial sigs. refl) small_index
      small_tree (template ∷ []) (template ∷ [])
