-- ===== src/Kernel/Tests.antt =====
-- Runs of a concrete program, to which the theorems about the kernel apply.

use text.Mathlib.Text.{◌==◌ as str_eq}
use pyinc.Prelude.{
  is_some, true, All, ◌⊎◌, ◌+◌, ◌||◌, ◌≤◌, length, ◌≡◌, refl, some, List, [], ◌∷◌, String, arith,
  if◌then◌else◌,
}
use pyinc.Kernel.Node.{same_key, prospective_input_key}
use pyinc.Kernel.Program.{Input, Error, input_key_error, ok, raise}
use pyinc.Kernel.State.{Database, init, get_record}
use pyinc.Kernel.Verify.{policy_conflict, read_input}
use pyinc.Kernel.Inputs.{set, inside, input_equal, input_node_key}
use pyinc.Kernel.Requests.{get}
use pyinc.Kernel.Fresh.{World, value, fresh, run_fresh}
use pyinc.Kernel.Run.{Safe}
use pyinc.Kernel.SetInput.{update}
use pyinc.Kernel.History.{
  Op, set_input, set_inputs, batch_outcome, batch_world, get_query, answers, from_scratch, Sound,
  no_inputs, answers-from_scratch, init-Inv, was_set, got,
}
use pyinc.Kernel.Steps.{Keeps}
use pyinc.Kernel.Batch.{seen, set_many, decisions, changed_updates}
use pyinc.Kernel.BatchLaws.{IsStored, set_many-revision}
use pyinc.Kernel.Limit.{get-Keeps}
use pyinc.Kernel.Eviction.{IsIndexed}
use pyinc.Kernel.Stored.{get-limit, get-IsIndexed}
use pyinc.Kernel.BatchOne.{set_many-set}
use pyinc.Kernel.SetRead.{read_input-set, set-others}
use pyinc.Kernel.Answers.{set_many-IsServing, get-value, get-IsServing, set-IsServing}
use pyinc.Kernel.Serving.{IsServing, update_all}
use pyinc.Kernel.BatchWorld.{repeated}
use pyinc.Kernel.BatchServed.{IsHandled}
use pyinc.Kernel.BatchRead.{set_many-read_input}
use pyinc.Kernel.Samples.{
  word, suffix, query, program, rank, digests, exact, ranked, filled, Safe-in, canonical_exact,
}

-- Two inputs in a batch, a query, a change of one input, the query again, a batch in which a key is
-- repeated, an equal update, another query.
abbrev session : List (Op String)
session =
    set_inputs ((word, "ab") ∷ (suffix, "!") ∷ [])
    ∷ get_query (query "both")
    ∷ set_input word "c"
    ∷ get_query (query "both")
    ∷ set_inputs ((suffix, "?") ∷ (word, "d") ∷ (suffix, "!") ∷ [])
    ∷ set_input suffix "!"
    ∷ get_query (query "twice")
    ∷ []

session_values :
    from_scratch program rank session no_inputs
    ≡ was_set (ok tt)
      ∷ got (ok "abab!")
      ∷ was_set (ok tt)
      ∷ got (ok "cc!")
      ∷ was_set (raise (input_key_error "suffix"))
      ∷ was_set (ok tt)
      ∷ got (ok "cc")
      ∷ []
unfolding from_scratch value run_fresh fresh update update_all repeated seen
session_values = refl

abbrev changed : World String
changed = update (filled "ab") "word" "c"

word-IsHandled : IsHandled program rank digests word
word-IsHandled = (refl, canonical_exact)

suffix-IsHandled : IsHandled program rank digests suffix
suffix-IsHandled = (refl, canonical_exact)

changed-Sound :
    Sound program rank digests 2
      (get_query (query "both")
        ∷ set_inputs ((suffix, "?") ∷ (word, "d") ∷ (suffix, "!") ∷ [])
        ∷ set_input suffix "!"
        ∷ get_query (query "twice")
        ∷ [])
      changed
unfolding update update_all repeated seen
changed-Sound = (
  refl,
  omega arith,
  (λ name args. Safe-in changed ("c", refl) ("!", refl) (str_eq name "both")),
  (
    (suffix-IsHandled, (word-IsHandled, (suffix-IsHandled, tt))),
    (
      suffix-IsHandled,
      (
        refl,
        omega arith,
        (λ name args.
            Safe-in (update changed "suffix" "!") ("c", refl) ("!", refl) (str_eq name "both")),
        tt,
      ),
    ),
  ),
)

session-Sound : Sound program rank digests 2 session no_inputs
unfolding update update_all repeated seen
session-Sound = (
  (word-IsHandled, (suffix-IsHandled, tt)),
  (
    refl,
    omega arith,
    (λ name args. Safe-in (filled "ab") ("ab", refl) ("!", refl) (str_eq name "both")),
    (word-IsHandled, changed-Sound),
  ),
)

answers-from_scratch_example :
    answers program 2 session (init (some 1)) ≡ from_scratch program rank session no_inputs
answers-from_scratch_example =
    answers-from_scratch program rank digests exact ranked 2 (some 1) session session-Sound

init-IsServing : IsServing program rank digests no_inputs (init (some 1))
init-IsServing = (λ v. no_inputs, 0, refl, init-Inv program rank digests (some 1), (refl, refl))

-- The states after `word` is set to a text, and after both inputs are.
abbrev with_word : String → Database String
with_word w = (set program.values word w (init (some 1))).1

abbrev with_both : String → Database String
with_both w = (set program.values suffix "!" (with_word w)).1

set-IsServing_example :
    ((set program.values word "ab" (init (some 1))).0 ≡ ok tt)
    × IsServing program rank digests (update no_inputs "word" "ab") (with_word "ab")
set-IsServing_example =
    set-IsServing program rank digests word "ab" no_inputs (init (some 1)) init-IsServing refl
      canonical_exact

set_many-IsServing_example :
    ((set_many program.values ((word, "ab") ∷ (suffix, "!") ∷ []) (init (some 1))).0
      ≡ batch_outcome (repeated {S = String} ((word, "ab") ∷ (suffix, "!") ∷ []) []))
    × IsServing program rank digests
        (batch_world
          (repeated {S = String} ((word, "ab") ∷ (suffix, "!") ∷ []) [])
          ((word, "ab") ∷ (suffix, "!") ∷ [])
          no_inputs)
        (set_many program.values ((word, "ab") ∷ (suffix, "!") ∷ []) (init (some 1))).1
set_many-IsServing_example =
    set_many-IsServing program rank digests ((word, "ab") ∷ (suffix, "!") ∷ []) no_inputs
      (init (some 1)) init-IsServing (word-IsHandled, (suffix-IsHandled, tt))

set_many-read_input_example :
    All
      (λ (u : Input String × String).
        (read_input u.0
          (set_many program.values ((word, "ab") ∷ (suffix, "!") ∷ []) (init (some 1))).1).0
        ≡ ok u.1)
      ((word, "ab") ∷ (suffix, "!") ∷ [])
unfolding repeated seen
set_many-read_input_example =
    set_many-read_input program rank digests ((word, "ab") ∷ (suffix, "!") ∷ []) no_inputs
      (init (some 1)) init-IsServing (word-IsHandled, (suffix-IsHandled, tt)) refl

with_both-IsServing : IsServing program rank digests (filled "ab") (with_both "ab")
with_both-IsServing =
    (set-IsServing program rank digests suffix "!" (update no_inputs "word" "ab") (with_word "ab")
      set-IsServing_example.1 refl canonical_exact).1

filled-Safe :
    (name args : String) → Safe program rank digests (filled "ab") (program.body name args)
unfolding update
filled-Safe name args = Safe-in (filled "ab") ("ab", refl) ("!", refl) (str_eq name "both")

get-value_example :
    ((v : String) × ((get program 2 (query "both") (with_both "ab")).0 ≡ ok v))
    × ((get program 2 (query "both") (with_both "ab")).0
        ≡ value rank program (filled "ab") (query "both"))
get-value_example =
    get-value program rank digests exact ranked 2 (query "both") (filled "ab") (with_both "ab")
      with_both-IsServing filled-Safe refl (omega arith)

get-IsServing_example :
    IsServing program rank digests (filled "ab") (get program 2 (query "both") (with_both "ab")).1
get-IsServing_example =
    get-IsServing program rank digests exact ranked 2 (query "both") (filled "ab") (with_both "ab")
      with_both-IsServing filled-Safe refl (omega arith)

get-Keeps_example : Keeps (with_both "ab") (get program 1 (query "both") (with_both "ab")).1
get-Keeps_example = get-Keeps program 1 (query "both") (with_both "ab") with_both-IsServing.4.0

with_both-IsIndexed : IsIndexed (with_both "ab")
unfolding set inside policy_conflict pyinc.Assoc.find pyinc.Kernel.Inputs.write_input input_equal
    pyinc.Kernel.Inputs.apply_change pyinc.Kernel.Inputs.commit_input_registration pyinc.Assoc.put
    same_key input_node_key prospective_input_key
with_both-IsIndexed k is_query h = absurd (ground (arith, is_query, h))

-- `both` has called `twice`, which was used before it and goes at the end of the request.
both_stays :
    is_some (get_record (query "both") (get program 2 (query "both") (with_both "ab")).1) ≡ true
unfolding set get inside policy_conflict pyinc.Assoc.find pyinc.Kernel.Inputs.write_input
    input_equal pyinc.Kernel.Inputs.apply_change pyinc.Kernel.Inputs.commit_input_registration
    pyinc.Kernel.Verify.get_within pyinc.Kernel.Execute.ensure_query
    pyinc.Kernel.Execute.ensure_step pyinc.Kernel.Requests.open_request pyinc.Assoc.put same_key
    input_node_key pyinc.Kernel.Execute.use_query pyinc.Kernel.Execute.execute_query
    pyinc.Kernel.Execute.finish pyinc.Assoc.remove pyinc.Kernel.Execute.after_verify
    pyinc.Kernel.Execute.commit pyinc.Kernel.Execute.count_decision pyinc.Kernel.Execute.count_reuse
    pyinc.Kernel.Execute.decide pyinc.Kernel.Execute.equal_result pyinc.Kernel.Execute.has_reasons
    pyinc.Kernel.Execute.push_frame pyinc.Kernel.Execute.refresh pyinc.Kernel.Execute.reuse_checked
    pyinc.Kernel.Execute.reuse_verified pyinc.Kernel.Inputs.changed_record
    pyinc.Kernel.Inputs.ignore_equal pyinc.Kernel.Node.add pyinc.Kernel.Node.contains
    prospective_input_key pyinc.Kernel.Program.compare_values pyinc.Kernel.Requests.close_request
    pyinc.Kernel.Requests.evict_query_nodes_if_needed pyinc.Kernel.State.discard
    pyinc.Kernel.State.discard_uncommitted_query pyinc.Kernel.State.mark_frame_impure
    pyinc.Kernel.State.mark_query_used pyinc.Kernel.State.on_stack
    pyinc.Kernel.State.record_dependency pyinc.Kernel.Verify.after_one
    pyinc.Kernel.Verify.after_recheck pyinc.Kernel.Verify.dirty_reason pyinc.Kernel.Verify.failed
    pyinc.Kernel.Verify.finish_get pyinc.Kernel.Verify.insert_by_label
    pyinc.Kernel.Verify.label_before pyinc.Kernel.Verify.live
    pyinc.Kernel.Verify.maybe_changed_after pyinc.Kernel.Verify.moved_after read_input
    pyinc.Kernel.Verify.recheck pyinc.Kernel.Verify.run pyinc.Kernel.Verify.same_request
    pyinc.Kernel.Verify.sort_by_label pyinc.Kernel.Verify.own_cycle pyinc.Kernel.Verify.read_record
    pyinc.Kernel.Verify.fetch pyinc.Kernel.Requests.evict_rounds pyinc.Kernel.Requests.evict_one
    pyinc.Kernel.Requests.least_recent pyinc.Kernel.Requests.last_used
    pyinc.Kernel.State.evict_query_record
both_stays = refl

get-limit_example : length (query "both" ∷ []) ≤ 1
unfolding set inside policy_conflict pyinc.Assoc.find pyinc.Kernel.Inputs.write_input input_equal
    pyinc.Kernel.Inputs.apply_change pyinc.Kernel.Inputs.commit_input_registration pyinc.Assoc.put
    same_key input_node_key pyinc.Kernel.Node.contains
get-limit_example =
    get-limit program 2 (query "both") (with_both "ab") 1 (query "both" ∷ []) refl refl
      with_both-IsIndexed (refl, tt) ((refl, both_stays), tt)

get-IsIndexed_example : IsIndexed (get program 2 (query "both") (with_both "ab")).1
get-IsIndexed_example =
    get-IsIndexed program 2 (query "both") (with_both "ab") with_both-IsServing.4.0
      with_both-IsIndexed

read_input-set_example :
    (read_input word (set program.values word "c" (with_both "ab")).1).0 ≡ ok "c"
unfolding set inside policy_conflict pyinc.Assoc.find pyinc.Kernel.Inputs.write_input input_equal
    pyinc.Kernel.Inputs.apply_change pyinc.Kernel.Inputs.commit_input_registration pyinc.Assoc.put
    same_key input_node_key
read_input-set_example = read_input-set program.values word "c" (with_both "ab") refl refl

set-others_example :
    (get_record (prospective_input_key "suffix") (set program.values word "c" (with_both "ab")).1
      ≡ get_record (prospective_input_key "suffix") (with_both "ab"))
    × ((set program.values word "c" (with_both "ab")).1.revision ≡ (
        if inside (with_both "ab").execution_stack || policy_conflict word (with_both "ab")
        then (with_both "ab").revision
        else if input_equal program.values word "c"
            (get_record (input_node_key word (with_both "ab")) (with_both "ab"))
        then (with_both "ab").revision
        else (with_both "ab").revision + 1))
unfolding set inside policy_conflict pyinc.Assoc.find pyinc.Kernel.Inputs.write_input input_equal
    pyinc.Kernel.Inputs.apply_change pyinc.Kernel.Inputs.commit_input_registration pyinc.Assoc.put
    same_key input_node_key
set-others_example =
    set-others program.values word "c" (with_both "ab") (prospective_input_key "suffix") refl

-- The suffix has the value already, and the word changes.
set_many-revision_example :
    (All (IsStored program.values (with_both "ab")) ((word, "c") ∷ (suffix, "!") ∷ [])
      × ((set_many program.values ((word, "c") ∷ (suffix, "!") ∷ []) (with_both "ab")).1.revision
          ≡ (with_both "ab").revision))
    ⊎ (¬ All (IsStored program.values (with_both "ab")) ((word, "c") ∷ (suffix, "!") ∷ [])
        × ((set_many program.values ((word, "c") ∷ (suffix, "!") ∷ []) (with_both "ab")).1.revision
            ≡ (with_both "ab").revision + 1))
unfolding set inside policy_conflict pyinc.Assoc.find pyinc.Kernel.Inputs.write_input input_equal
    pyinc.Kernel.Inputs.apply_change pyinc.Kernel.Inputs.commit_input_registration pyinc.Assoc.put
    same_key input_node_key set_many pyinc.Kernel.Batch.validate seen
set_many-revision_example =
    set_many-revision program.values ((word, "c") ∷ (suffix, "!") ∷ []) (with_both "ab") refl

set_many-set_example :
    set_many program.values ((word, "c") ∷ []) (with_both "ab")
    ≡ set program.values word "c" (with_both "ab")
unfolding set inside policy_conflict pyinc.Assoc.find pyinc.Kernel.Inputs.write_input input_equal
    pyinc.Kernel.Inputs.apply_change pyinc.Kernel.Inputs.commit_input_registration pyinc.Assoc.put
    same_key input_node_key
set_many-set_example = set_many-set program.values word "c" (with_both "ab") refl
