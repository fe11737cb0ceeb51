-- ===== src/Stream/Thinking/Rounds.antt =====
-- One round of the cutting of a reasoning summary: it leaves a shorter text, or nothing to do.
use Prim.Native.String.{[], ◌∷◌, ◌++◌}
use claudodex.Common.{
  ℕ, ◌+◌, ◌<◌, ◌≡◌, String, Bool, true, false, Option, none, some, [], ◌∷◌, Bool-cases, inl, inr,
  arith, eq_iff, ◌==◌, string_key, nat_eq, nat_eq_iff,
}
use claudodex.Common.Text.{size}
use claudodex.Common.Text.Cut.{take_chars-drop_chars, size-drop_chars}
use claudodex.Stream.Blocks.{}
use claudodex.Stream.Thinking.{Round, delimiter, next_round, round_at, cut}

-- What a round leaves to do: nothing, or a shorter text behind the one that it emits.
pub data RoundOk (flush : Bool) (pending : String) : Round → Type 0 where
  ends : (flush ≡ true → pending ≡ "") → RoundOk flush pending Round.stop
  titled :
      {head rest : String}
      → head ++ rest ≡ pending
      → size rest < size pending
      → RoundOk flush pending (Round.title head rest)
  plainly :
      {head rest : String}
      → head ++ rest ≡ pending
      → size rest < size pending
      → RoundOk flush pending (Round.plain head rest)

size-nonempty : (s : String) → s == "" ≡ false → 0 < size s
unfolding size
size-nonempty [] h = ground arith
size-nonempty (c ∷ s) h = omega arith

cut-Ok :
    (flush : Bool) (pending : String) (n : ℕ)
    → 0 < size pending
    → (flush ≡ true → 0 < n)
    → RoundOk flush pending (cut pending n)
cut-Ok flush pending n h f = elim (Bool-cases (nat_eq n 0)) [
  | inl e ↦ rw e (RoundOk.ends (λ on. absurd (omega (arith, f on, (nat_eq_iff n 0).0 e))))
  | inr e ↦ rw e (
      RoundOk.plainly (take_chars-drop_chars n pending)
        (size-drop_chars n pending (ground (arith, nat_eq_iff n 0, e)) h))
]

round_at-Ok :
    (flush : Bool) (pending : String) (d : Option ℕ)
    → 0 < size pending
    → RoundOk flush pending (round_at flush pending d)
round_at-Ok flush pending (some d) h =
    RoundOk.titled (take_chars-drop_chars (d + 2) pending)
      (size-drop_chars (d + 2) pending (omega arith) h)
round_at-Ok flush pending none h = cut-Ok flush pending _ h (λ on. rw on (omega (arith, h)))

pub next_round-Ok :
    (flush : Bool) (pending : String) → RoundOk flush pending (next_round flush pending)
unfolding next_round
next_round-Ok flush pending = elim (Bool-cases (pending == "")) [
  | inl e ↦ rw e (RoundOk.ends (λ on. (eq_iff pending "").0 e))
  | inr e ↦ rw e (round_at-Ok flush pending (delimiter pending) (size-nonempty pending e))
]
