-- ===== src/Vocabulary/Payloads/Wire.antt =====
-- What `dataclasses.asdict` makes of a body, as a writer sends it.
use runstate.Prelude.{ℕ, String, Option, none, some, List, [], ◌∷◌}
use runstate.Prelude.Int.{pos}
use runstate.Json.{Json, Items, Fields, null, bool, int, float, str, list, nil, cons, end, field}
use runstate.Vocabulary.Outcome.{outcome_text}
use runstate.Vocabulary.Payloads.Lifecycle.{Started, Commit, Stopped}
use runstate.Vocabulary.Payloads.Supervisor.{Died}

module _ {F : Type 0} where
  abbrev pub seq_json : ℕ → Json F
  seq_json n = int (pos n)

  abbrev pub parent_json : Option ℕ → Json F
  parent_json none = null
  parent_json (some n) = int (pos n)

  abbrev pub seq_array : List ℕ → Items F
  seq_array [] = nil
  seq_array (n ∷ ns) = cons (int (pos n)) (seq_array ns)

  abbrev pub values_json : Option (List ℕ) → Json F
  values_json none = null
  values_json (some ns) = list (seq_array ns)

  abbrev pub name_array : List String → Items F
  name_array [] = nil
  name_array (s ∷ ss) = cons (str s) (name_array ss)

  abbrev pub error_json : Option String → Json F
  error_json none = null
  error_json (some s) = str s

  unfoldable pub started_dict : Started F → Fields F
  started_dict s = field "handle" (str s.handle) (
      field "t" (float s.t) (
        field "resume_from" (parent_json s.resume_from)
          (field "sources" (list (name_array s.sources)) end)))

  unfoldable pub commit_dict : Commit F → Fields F
  commit_dict c = field "claim_seq" (seq_json c.claim_seq) (
      field "consumed_seq" (seq_json c.consumed_seq) (
        field "parent" (parent_json c.parent) (
          field "values" (list (seq_array c.values)) (
            field "fired" (list (name_array c.fired))
              (field "expired" (list (name_array c.expired)) (field "t" (float c.t) end))))))

  unfoldable pub stopped_dict : Stopped F → Fields F
  stopped_dict s = field "completed" (bool s.completed) (
      field "error" (error_json s.error) (
        field "claim_seq" (seq_json s.claim_seq) (
          field "honored" (list (name_array s.honored)) (
            field "parent" (parent_json s.parent) (
              field "values" (values_json s.values) (
                field "fired" (list (name_array s.fired))
                  (field "expired" (list (name_array s.expired)) (field "t" (float s.t) end))))))))

  unfoldable pub died_dict : Died F → Fields F
  died_dict d = field "claim_seq" (seq_json d.claim_seq) (
      field "outcome" (str (outcome_text d.outcome))
        (field "evidence" (str d.evidence) (field "t" (float d.t) end)))
