-- ===== src/Convert/System/Laws.antt =====
-- The input that a conversation is converted to.
use claudodex.Common.{
  String, ◌≡◌, refl, true, ◌||◌, ◌⊎◌, inl, inr, Bool-cases, List, [], ◌∷◌, ◌++◌, arith, eq_iff,
  ◌==◌, string_key,
}
use mathlib.Core.Path.{subst}
use claudodex.Common.Dict.{lookup}
use claudodex.Common.Outcome.{Outcome, failed, ok, ◌>>=◌}
use claudodex.Common.Text.{trim_space, to_lower, contains}
use claudodex.Codex.{InputItem}
use claudodex.Convert.Messages.{Library, BadRequest, AnthropicMessage, Loop, part}
use claudodex.Convert.Messages.Results.{convert_content}
use claudodex.Convert.Messages.Laws.{HasDigits, Consistent, IsItem, AllItems}
use claudodex.Convert.Messages.Shape.{Goes, convert_content-Goes}
use claudodex.Convert.System.{
  Conversation, add_system, add_content, queued_steering_marker, convert_message, convert_all,
  convert_messages, nothing_yet, with_instructions, system_instructions,
}

-- An item that a message of the user or of the assistant may give.
abbrev pub IsInput : InputItem → Type 0
IsInput item = IsItem "user" item ⊎ IsItem "assistant" item

abbrev pub AllInputs : List InputItem → Type 0
AllInputs [] = Unit
AllInputs (item ∷ rest) = IsInput item × AllInputs rest

AllInputs-append : (xs ys : List InputItem) → AllInputs xs → AllInputs ys → AllInputs (xs ++ ys)
AllInputs-append [] ys h k = k
AllInputs-append (x ∷ xs) ys h k = (h.0, AllInputs-append xs ys h.1 k)

of_user : (xs : List InputItem) → AllItems "user" xs → AllInputs xs
of_user [] h = tt
of_user (x ∷ xs) h = (inl h.0, of_user xs h.1)

of_assistant : (xs : List InputItem) → AllItems "assistant" xs → AllInputs xs
of_assistant [] h = tt
of_assistant (x ∷ xs) h = (inr h.0, of_assistant xs h.1)

of_role :
    (role : String) (xs : List InputItem)
    → role == "user" || role == "assistant" ≡ true
    → AllItems role xs
    → AllInputs xs
of_role role xs e h = elim (Bool-cases (role == "user")) [
  | inl user ↦ of_user xs (subst (λ r. AllItems r xs) ((eq_iff role "user").0 user) h)
  | inr other ↦
      of_assistant xs
        (subst (λ r. AllItems r xs) ((eq_iff role "assistant").0 (ground (arith, e, other))) h)
]

module _ (lib : Library) (digits : HasDigits lib) where
  pub record IsSound (c : Conversation) : Type 0 where
    pub consistent : Consistent lib c.call_ids
    pub inputs : AllInputs c.input

  abbrev pub Sounds : Outcome BadRequest Conversation → Type 0
  Sounds (failed e) = Unit
  Sounds (ok c) = IsSound c

  add_system-IsSound : (text : String) (c : Conversation) → IsSound c → IsSound (add_system text c)
  add_system-IsSound text c s = elim (Bool-cases (text == "")) [
    | inl e ↦ rw e s
    | inr e ↦ rw e (elim (Bool-cases (contains text queued_steering_marker)) [
      | inr other ↦ rw other (record { consistent = s.consistent; inputs = s.inputs })
      | inl steering ↦ rw steering (record {
        consistent = s.consistent;
        inputs =
            AllInputs-append c.input _ s.inputs
              (inl (IsItem.message (part "input_text" text) [] refl), tt);
      })
    ])
  ]

  add_content-Sounds :
      (role : String) (c : Conversation) (o : Outcome BadRequest Loop)
      → role == "user" || role == "assistant" ≡ true
      → IsSound c
      → Goes lib digits role o
      → Sounds (o >>= add_content c)
  add_content-Sounds role c (failed e) h s g = tt
  add_content-Sounds role c (ok l) h s g = record {
    consistent = g.consistent;
    inputs = AllInputs-append c.input l.done s.inputs (of_role role l.done h g.well_formed);
  }

  convert_message-Sounds :
      (msg : AnthropicMessage) (c : Conversation) → IsSound c → Sounds (convert_message lib msg c)
  unfolding convert_message
  convert_message-Sounds msg c s =
      let role = to_lower (trim_space msg.role) in
      elim (Bool-cases (role == "system")) [
        | inl e ↦ rw e (add_system-IsSound (trim_space (system_instructions msg.content)) c s)
        | inr e ↦ rw e (elim (Bool-cases (role == "user" || role == "assistant")) [
          | inl h ↦ rw h (
              add_content-Sounds role c (convert_content lib role c.call_ids msg.content) h s
                (convert_content-Goes lib digits role c.call_ids msg.content s.consistent))
          | inr other ↦ rw other tt
        ])
      ]

  bind-Sounds :
      (o : Outcome BadRequest Conversation) (f : Conversation → Outcome BadRequest Conversation)
      → Sounds o
      → ((c : Conversation) → IsSound c → Sounds (f c))
      → Sounds (o >>= f)
  bind-Sounds (failed e) f h k = tt
  bind-Sounds (ok c) f h k = k c h

  convert_all-Sounds :
      (msgs : List AnthropicMessage) (c : Conversation)
      → IsSound c
      → Sounds (convert_all lib msgs c)
  unfolding convert_all
  convert_all-Sounds [] c s = s
  convert_all-Sounds (msg ∷ msgs) c s =
      bind-Sounds (convert_message lib msg c) (convert_all lib msgs)
        (convert_message-Sounds msg c s) (convert_all-Sounds msgs)

  nothing_yet-IsSound : IsSound nothing_yet
  unfolding lookup
  nothing_yet-IsSound = record { consistent = λ id v h. ground (arith, h); inputs = tt }

  -- An error, or an input that is well formed.
  abbrev pub Yields : Outcome BadRequest (List InputItem × String) → Type 0
  Yields (failed e) = Unit
  Yields (ok r) = AllInputs r.0

  -- `convertMessages` refuses a conversation or gives only messages of the user or the assistant with at
  -- least one part, calls that have a name, and results; the ids of calls and results have at most 64
  -- bytes.
  pub convert_messages-Yields : (msgs : List AnthropicMessage) → Yields (convert_messages lib msgs)
  unfolding convert_messages
  convert_messages-Yields msgs =
      go (convert_all lib msgs nothing_yet)
        (convert_all-Sounds msgs nothing_yet nothing_yet-IsSound)
    where
      go : (o : Outcome BadRequest Conversation) → Sounds o → Yields (o >>= with_instructions)
      go (failed e) h = tt
      go (ok c) h = h.inputs
