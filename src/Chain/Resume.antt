-- ===== src/Chain/Resume.antt =====
-- A request that goes on from a recorded response.
use claudodex.Common.{
  ℕ, zero, suc, String, ◌≡◌, ◌≢◌, refl, ap, true, false, inl, inr, Bool-cases, Option, none, some,
  List, [], ◌∷◌, ◌++◌, length, drop, leb, arith, eq_iff, ◌==◌, string_key, if◌then◌else◌,
}
use claudodex.Common.Dict.{lookup}
use claudodex.Common.Text.{trim_space}
use claudodex.Codex.{InputItem, Request}
use claudodex.Codex.Equal.{item_discrete, is_yes_iff}
use claudodex.Chain.{
  ResponseChain, Chains, is_blank, recorded, input_has_prefix, resume_compatible, Resumption,
  resume_at, resume_by_calls, resume_chain, with_resume, apply_implicit_resume_detailed,
  trim_after_recorded_output,
}

input_has_prefix_lem :
    (input pre : List InputItem)
    → input_has_prefix input pre ≡ true
    → input ≡ pre ++ drop (length pre) input
unfolding input_has_prefix
input_has_prefix_lem input [] h = refl
input_has_prefix_lem [] (p ∷ pre) h = ground (arith, h)
input_has_prefix_lem (x ∷ input) (p ∷ pre) h =
    let same = (is_yes_iff (item_discrete x p)).0 (ground (arith, h)) in
    let rest = input_has_prefix_lem input pre (ground (arith, h)) in cc (same, rest)

pub input_has_prefix-append :
    (pre rest : List InputItem) → input_has_prefix (pre ++ rest) pre ≡ true
unfolding input_has_prefix
input_has_prefix-append [] rest = refl
input_has_prefix-append (p ∷ pre) rest =
    rw ((is_yes_iff (item_discrete p p)).1 refl) (input_has_prefix-append pre rest)

pub drop-length-append {ℓ} :
    {A : Type ℓ} (pre rest : List A) → drop (length pre) (pre ++ rest) ≡ rest
drop-length-append [] rest = refl
drop-length-append (p ∷ pre) rest = drop-length-append pre rest

pub drop_nonempty {ℓ} :
    {A : Type ℓ} (n : ℕ) (xs : List A) → leb (length xs) n ≡ false → drop n xs ≢ []
drop_nonempty zero [] h e = ground (arith, h)
drop_nonempty zero (x ∷ xs) h e = ground (arith, e)
drop_nonempty (suc n) [] h e = ground (arith, h)
drop_nonempty (suc n) (x ∷ xs) h e = drop_nonempty n xs (ground (arith, h)) e

-- The chain is the recorded one, it has an id, and nothing but the input has changed since.
pub record Matches (s : Chains) (chain_key : String) (request : Request) (chain : ResponseChain)
    : Type 0 where
  pub known : lookup (trim_space chain_key) s.chains ≡ some chain
  pub identified : is_blank chain.response_id ≡ false
  pub same_options : resume_compatible chain.request request ≡ true
  pub same_instructions : trim_space chain.request.instructions ≡ trim_space request.instructions

-- What `applyImplicitResumeDetailed` may do to a request.
pub data Resumed (s : Chains) (chain_key : String) (request : Request) (r : Resumption)
    : Type 0 where
  unchanged : r.used ≡ false → r.request ≡ request → Resumed s chain_key request r
  behind_prefix :
      (chain : ResponseChain) (rest : List InputItem)
      → Matches s chain_key request chain
      → rest ≢ []
      → request.input ≡ recorded chain ++ rest
      → r.used ≡ true
      → r.request ≡ record request {
        previous_response_id = chain.response_id;
        instructions = "";
        input = rest;
      }
      → Resumed s chain_key request r
  behind_output :
      (chain : ResponseChain) (n : ℕ)
      → Matches s chain_key request chain
      → ((rest : List InputItem) → request.input ≢ recorded chain ++ rest)
      → trim_after_recorded_output request.input chain.output ≡ some n
      → drop n request.input ≢ []
      → r.used ≡ true
      → r.request ≡ with_resume chain n request
      → Resumed s chain_key request r

module _ (s : Chains) (chain_key : String) (request : Request) where
  prefix-Resumed :
      (chain : ResponseChain)
      → Matches s chain_key request chain
      → input_has_prefix request.input (recorded chain) ≡ true
      → Resumed s chain_key request (resume_at "applied" chain (length (recorded chain)) request)
  prefix-Resumed chain m h =
      let n = length (recorded chain) in
      elim (Bool-cases (leb (length request.input) n)) [
        | inl e ↦ rw e (Resumed.unchanged refl refl)
        | inr e ↦ rw e (
            Resumed.behind_prefix chain (drop n request.input) m (drop_nonempty n request.input e)
              (input_has_prefix_lem request.input (recorded chain) h) refl refl)
      ]

  calls-Resumed :
      (chain : ResponseChain) (o : Option ℕ)
      → Matches s chain_key request chain
      → ((rest : List InputItem) → request.input ≢ recorded chain ++ rest)
      → trim_after_recorded_output request.input chain.output ≡ o
      → Resumed s chain_key request (resume_by_calls chain request o)
  calls-Resumed chain none m new h = Resumed.unchanged refl refl
  calls-Resumed chain (some n) m new h = elim (Bool-cases (leb (length request.input) n)) [
    | inl e ↦ rw e (Resumed.unchanged refl refl)
    | inr e ↦
        rw e (Resumed.behind_output chain n m new h (drop_nonempty n request.input e) refl refl)
  ]

  matching-Resumed :
      (chain : ResponseChain)
      → Matches s chain_key request chain
      → Resumed s chain_key request (
          if input_has_prefix request.input (recorded chain)
          then resume_at "applied" chain (length (recorded chain)) request
          else resume_by_calls chain request
              (trim_after_recorded_output request.input chain.output))
  matching-Resumed chain m = elim (Bool-cases (input_has_prefix request.input (recorded chain))) [
    | inl e ↦ rw e (prefix-Resumed chain m e)
    | inr e ↦ rw e (
        calls-Resumed chain _ m
          (λ rest same. ground (
            arith,
            e,
            ap (λ input. input_has_prefix input (recorded chain)) same,
            input_has_prefix-append (recorded chain) rest,
          ))
          refl)
  ]

  chain-Resumed :
      (o : Option ResponseChain)
      → lookup (trim_space chain_key) s.chains ≡ o
      → Resumed s chain_key request (resume_chain o request)
  chain-Resumed none known = Resumed.unchanged refl refl
  chain-Resumed (some chain) known = elim (Bool-cases (is_blank chain.response_id)) [
    | inl blank ↦ rw blank (Resumed.unchanged refl refl)
    | inr named ↦ rw named (elim (Bool-cases (resume_compatible chain.request request)) [
      | inr other ↦ rw other (Resumed.unchanged refl refl)
      | inl same ↦
          rw same
            (elim (Bool-cases
              (trim_space chain.request.instructions == trim_space request.instructions)) [
                | inr new ↦ rw new (Resumed.unchanged refl refl)
                | inl old ↦ rw old (
                    matching-Resumed chain record {
                      known = known;
                      identified = named;
                      same_options = same;
                      same_instructions = (eq_iff _ _).0 old;
                    })
              ])
    ])
  ]

  -- `applyImplicitResumeDetailed` leaves the request alone, or refers to the response of the chain that
  -- is recorded under the key and sends only what follows: behind the recorded input and output if the
  -- request begins with these, and only if it does not behind the last recorded item that came back. It
  -- always has something left to send, and it resumes only where options and instructions are unchanged.
  pub apply_implicit_resume_detailed-Resumed :
      Resumed s chain_key request (apply_implicit_resume_detailed s chain_key request)
  unfolding apply_implicit_resume_detailed
  apply_implicit_resume_detailed-Resumed = elim (Bool-cases (trim_space chain_key == "")) [
    | inl e ↦ rw e (Resumed.unchanged refl refl)
    | inr e ↦ rw e (chain-Resumed (lookup (trim_space chain_key) s.chains) refl)
  ]
