-- ===== src/Chain/Replay.antt =====
-- A request that replays a recorded conversation, and what recording and forgetting one do to the
-- requests that follow.
use claudodex.Common.{
  ℕ, String, ◌≡◌, ◌≢◌, refl, ap, ◌∙◌, true, false, inl, inr, Bool-cases, Option, none, some, List,
  [], ◌∷◌, ◌++◌, length, drop, leb, arith, eq_iff, ◌==◌, string_key, if◌then◌else◌,
}
use claudodex.Common.Dict.{lookup, remove, lookup-insert, lookup-remove}
use claudodex.Common.Text.{trim_space}
use claudodex.Common.Text.Trim.{trim_space-trim_space}
use claudodex.Codex.{InputItem, Request}
use claudodex.Chain.{
  ResponseChain, Chains, is_blank, recorded, resume_compatible, Resumption, resume_chain,
  apply_implicit_resume_detailed, trim_after_recorded_output, replay_from, replay_chain,
  apply_stateless_replay_detailed, clear_implicit_resume,
}
use claudodex.Chain.Trace.{ResponseTrace, output_in_order, chain_of, record_response_chain}
use claudodex.Chain.Resume.{drop_nonempty, input_has_prefix-append, drop-length-append}

-- What `applyStatelessReplayDetailed` may do to a request.
pub data Replayed (s : Chains) (chain_key : String) (request : Request) (r : Resumption)
    : Type 0 where
  unchanged : r.used ≡ false → r.request ≡ request → Replayed s chain_key request r
  replayed :
      (chain : ResponseChain) (n : ℕ)
      → lookup (trim_space chain_key) s.chains ≡ some chain
      → resume_compatible chain.request request ≡ true
      → trim_after_recorded_output request.input chain.output ≡ some n
      → drop n request.input ≢ []
      → r.used ≡ true
      → r.request ≡ record request {
        previous_response_id = "";
        input = recorded chain ++ drop n request.input;
      }
      → Replayed s chain_key request r

module _ (s : Chains) (chain_key : String) (request : Request) where
  from-Replayed :
      (chain : ResponseChain) (o : Option ℕ)
      → lookup (trim_space chain_key) s.chains ≡ some chain
      → resume_compatible chain.request request ≡ true
      → trim_after_recorded_output request.input chain.output ≡ o
      → Replayed s chain_key request (replay_from chain request o)
  from-Replayed chain none known same h = Replayed.unchanged refl refl
  from-Replayed chain (some n) known same h = elim (Bool-cases (leb (length request.input) n)) [
    | inl e ↦ rw e (Replayed.unchanged refl refl)
    | inr e ↦
        rw e (Replayed.replayed chain n known same h (drop_nonempty n request.input e) refl refl)
  ]

  chain-Replayed :
      (o : Option ResponseChain)
      → lookup (trim_space chain_key) s.chains ≡ o
      → Replayed s chain_key request (replay_chain o request)
  chain-Replayed none known = Replayed.unchanged refl refl
  chain-Replayed (some chain) known = elim (Bool-cases (resume_compatible chain.request request)) [
    | inr other ↦ rw other (Replayed.unchanged refl refl)
    | inl same ↦ rw same (from-Replayed chain _ known same refl)
  ]

  -- `applyStatelessReplayDetailed` leaves the request alone, or sends the recorded input and output and
  -- then what follows the last recorded item that came back, without a reference to a response; it does
  -- so only where the options are unchanged and something new follows.
  pub apply_stateless_replay_detailed-Replayed :
      Replayed s chain_key request (apply_stateless_replay_detailed s chain_key request)
  unfolding apply_stateless_replay_detailed
  apply_stateless_replay_detailed-Replayed = elim (Bool-cases (trim_space chain_key == "")) [
    | inl e ↦ rw e (Replayed.unchanged refl refl)
    | inr e ↦ rw e (chain-Replayed (lookup (trim_space chain_key) s.chains) refl)
  ]

not_at_end {ℓ} :
    {A : Type ℓ} (pre rest : List A) → rest ≢ [] → leb (length (pre ++ rest)) (length pre) ≡ false
not_at_end [] [] h = absurd (h refl)
not_at_end [] (x ∷ rest) h = ground arith
not_at_end (p ∷ pre) rest h = ground (arith, not_at_end pre rest h)

lookup_recorded :
    (s : Chains) (chain_key : String) (request : Request) (trace : ResponseTrace)
    → trim_space chain_key == "" ≡ false
    → is_blank trace.response_id ≡ false
    → lookup (trim_space chain_key) (record_response_chain chain_key request trace s).chains
      ≡ some (chain_of request trace)
unfolding record_response_chain
lookup_recorded s chain_key request trace named identified =
    let key = trim_space chain_key in
    rw (named, identified)
      (lookup-insert key key (chain_of request trace) s.chains
        ∙ ap (λ b. if b then some (chain_of request trace) else lookup key s.chains)
            ((eq_iff key key).1 refl))

resume_prefix :
    (chain : ResponseChain) (next : Request) (rest : List InputItem)
    → is_blank chain.response_id ≡ false
    → resume_compatible chain.request next ≡ true
    → trim_space chain.request.instructions ≡ trim_space next.instructions
    → next.input ≡ recorded chain ++ rest
    → rest ≢ []
    → resume_chain (some chain) next ≡ record {
      used = true;
      reason = "applied";
      prefix_items = length (recorded chain);
      input_items = length rest;
      request = record next {
        previous_response_id = chain.response_id;
        instructions = "";
        input = rest;
      };
    }
resume_prefix chain next rest identified same kept given new =
    let all_of = recorded chain in
    rw (identified, same, (eq_iff _ _).1 kept, given)
      (rw
        (
          input_has_prefix-append all_of rest,
          not_at_end all_of rest new,
          drop-length-append all_of rest,
        )
        refl)

-- Once a response is recorded under a key, a request under the same key with the same options and
-- instructions, whose input is the recorded input, the output and something new, resumes from that
-- response and sends exactly what is new.
pub resume-record_response_chain :
    (s : Chains) (chain_key : String) (request next : Request) (trace : ResponseTrace)
    (rest : List InputItem)
    → trim_space chain_key ≢ ""
    → is_blank trace.response_id ≡ false
    → resume_compatible request next ≡ true
    → trim_space request.instructions ≡ trim_space next.instructions
    → next.input ≡ (request.input ++ output_in_order trace) ++ rest
    → rest ≢ []
    → apply_implicit_resume_detailed
        (record_response_chain chain_key request trace s)
        chain_key
        next
      ≡ record {
        used = true;
        reason = "applied";
        prefix_items = length (request.input ++ output_in_order trace);
        input_items = length rest;
        request = record next {
          previous_response_id = trim_space trace.response_id;
          instructions = "";
          input = rest;
        };
      }
unfolding apply_implicit_resume_detailed resume_compatible
resume-record_response_chain s chain_key request next trace rest key identified same kept given
      new =
    elim (Bool-cases (trim_space chain_key == "")) [
      | inl e ↦ absurd (key ((eq_iff _ _).0 e))
      | inr e ↦
          rw (e, lookup_recorded s chain_key request trace e identified)
            (resume_prefix (chain_of request trace) next rest
              (ap (λ t. t == "") (trim_space-trim_space trace.response_id) ∙ identified) same kept
              given new)
    ]

-- Once the conversation of a key is forgotten, no request under that key resumes or replays, and the
-- conversations of the other keys are as before.
pub clear_implicit_resume_lem :
    (s : Chains) (chain_key other : String) (request : Request)
    → ((apply_implicit_resume_detailed (clear_implicit_resume s chain_key) chain_key request).used
        ≡ false)
      × ((apply_stateless_replay_detailed
            (clear_implicit_resume s chain_key)
            chain_key
            request).used
          ≡ false)
      × (trim_space chain_key ≢ other
          → lookup other (clear_implicit_resume s chain_key).chains ≡ lookup other s.chains)
unfolding apply_implicit_resume_detailed apply_stateless_replay_detailed clear_implicit_resume
clear_implicit_resume_lem s chain_key other request =
    let key = trim_space chain_key in
    elim (Bool-cases (key == "")) [
      | inl e ↦ rw e (refl, refl, λ h. refl)
      | inr e ↦
          let gone : lookup key (remove key s.chains) ≡ none =
            lookup-remove key key s.chains
            ∙ ap (λ b. if b then none else lookup key s.chains) ((eq_iff key key).1 refl) in
          rw (e, gone)
            (refl, refl, λ h. rw (lookup-remove key other s.chains) (unless_same key other h))
    ]
  where
    unless_same :
        (key asked : String)
        → key ≢ asked
        → (if key == asked then none else lookup asked s.chains) ≡ lookup asked s.chains
    unless_same key asked h = elim (Bool-cases (key == asked)) [
      | inl e ↦ absurd (h ((eq_iff key asked).0 e))
      | inr e ↦ rw e refl
    ]
