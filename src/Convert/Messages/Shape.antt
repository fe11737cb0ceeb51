-- ===== src/Convert/Messages/Shape.antt =====
-- Every block of a message keeps the state of the loop good.
use Prim.Native.String
use claudodex.Common.{
  String, ◌≡◌, refl, sym, Bool, true, false, ◌||◌, inl, inr, Bool-cases, eq_iff, Option, none, some,
  List, [], ◌∷◌, ◌==◌, string_key, ◌≤◌, if◌then◌else◌,
}
use mathlib.Core.Path.{subst}
use claudodex.Common.Dict.{Dict}
use claudodex.Common.Outcome.{Outcome, failed, ok, ◌>>=◌}
use claudodex.Common.Text.{byte_len, has_suffix, drop_last}
use claudodex.Json.{Json, Fields, null, bool, num, str, arr, obj, items}
use claudodex.Codex.{ContentPart}
use claudodex.Convert.Messages.{
  Library, BadRequest, Loop, part, flush, add_part, register_call_id, resolve_call_id, use_id,
  call_item, text_at, image_part_from_block,
}
use claudodex.Convert.Messages.Results.{
  part_type_of, add_call, add_result, add_picture, server_tool_result_item, convert_block,
  convert_blocks, block_maps, on_blocks, convert_content, result_id, whole_text,
}
use claudodex.Convert.Messages.Laws.{
  HasDigits, byte_len-clamp_call_id, Consistent, resolve_of_Consistent, register-Consistent, IsItem,
  IsGood, flush-IsGood, add_item-IsGood, name_nonempty,
}

module _ (lib : Library) (digits : HasDigits lib) (role : String) where
  resolved_le :
      (call_ids : Dict String String) (id : String)
      → Consistent lib call_ids
      → byte_len (resolve_call_id lib call_ids id) ≤ 64
  resolved_le call_ids id h =
      subst (λ t. byte_len t ≤ 64) (sym (resolve_of_Consistent lib call_ids id h))
        (byte_len-clamp_call_id lib id digits)

  add_call-IsGood :
      (block : Option Fields) (l : Loop)
      → role ≡ "assistant"
      → IsGood lib role l
      → IsGood lib role (add_call lib block l)
  add_call-IsGood block l assistant g =
      add_item-IsGood lib role (call_item lib block) (register_call_id lib (use_id block) l)
        (IsItem.call assistant refl (name_nonempty block)
          (byte_len-clamp_call_id lib (use_id block) digits))
        (record {
          consistent = register-Consistent lib (use_id block) l g.consistent;
          well_formed = g.well_formed;
        })

  add_result-IsGood :
      (block : Option Fields) (l : Loop)
      → IsGood lib role l
      → IsGood lib role (add_result lib block l)
  add_result-IsGood block l g =
      add_item-IsGood lib role _ l
        (IsItem.answer refl (resolved_le l.call_ids (result_id block) g.consistent)) g

  server_item-IsItem :
      (call_ids : Dict String String) (kind : String) (block : Option Fields)
      → Consistent lib call_ids
      → IsItem role (server_tool_result_item lib call_ids kind block)
  unfolding server_tool_result_item
  server_item-IsItem call_ids kind block h = elim (Bool-cases (text_at block "tool_use_id" == "")) [
    | inl e ↦ rw e (
        IsItem.answer refl
          (byte_len-clamp_call_id lib (String.◌++◌ "call_missing_" (drop_last 12 kind)) digits))
    | inr e ↦ rw e (IsItem.answer refl (resolved_le call_ids (text_at block "tool_use_id") h))
  ]

  -- An error, or a good state.
  abbrev pub Goes : Outcome BadRequest Loop → Type 0
  Goes (failed e) = Unit
  Goes (ok l) = IsGood lib role l

  if-Goes :
      (b : Bool) (x y : Outcome BadRequest Loop)
      → (b ≡ true → Goes x)
      → Goes y
      → Goes (if b then x else y)
  if-Goes true x y h k = h refl
  if-Goes false x y h k = k

  add_picture-Goes :
      (block : Option Fields) (l : Loop) → IsGood lib role l → Goes (add_picture block l)
  add_picture-Goes block l g = go (image_part_from_block block)
    where
      go : (o : Outcome BadRequest ContentPart) → Goes (o >>= λ picture. ok (add_part picture l))
      go (failed e) = tt
      go (ok p) = record { consistent = g.consistent; well_formed = g.well_formed }

  convert_block-Goes :
      (block : Option Fields) (l : Loop) → IsGood lib role l → Goes (convert_block lib role block l)
  unfolding convert_block
  convert_block-Goes block l g =
      let kind = text_at block "type" in
      let start = flush-IsGood lib role l g in
      if-Goes (kind == "text") _ _
        (λ _. record { consistent = g.consistent; well_formed = g.well_formed })
        (if-Goes (kind == "image") _ _
          (λ _. if-Goes (role == "user") _ _ (λ _. add_picture-Goes block l g) g)
          (if-Goes (kind == "tool_use" || kind == "server_tool_use") _ _
            (λ _.
              if-Goes (role == "assistant") _ _
                (λ e. add_call-IsGood block (flush role l) ((eq_iff role "assistant").0 e) start)
                tt)
            (if-Goes (kind == "tool_result") _ _
              (λ _.
                if-Goes (role == "user") _ _ (λ _. add_result-IsGood block (flush role l) start) tt)
              (if-Goes (kind == "thinking" || kind == "redacted_thinking") _ _ (λ _. g)
                (if-Goes (has_suffix kind "_tool_result") _ _
                  (λ _.
                    add_item-IsGood lib role _ (flush role l)
                      (server_item-IsItem l.call_ids kind block g.consistent) start)
                  g)))))

  bind-Goes :
      (o : Outcome BadRequest Loop) (f : Loop → Outcome BadRequest Loop)
      → Goes o
      → ((next : Loop) → IsGood lib role next → Goes (f next))
      → Goes (o >>= f)
  bind-Goes (failed e) f h k = tt
  bind-Goes (ok next) f h k = k next h

  convert_blocks-Goes :
      (blocks : List (Option Fields)) (l : Loop)
      → IsGood lib role l
      → Goes (convert_blocks lib role blocks l)
  unfolding convert_blocks
  convert_blocks-Goes [] l g = flush-IsGood lib role l g
  convert_blocks-Goes (block ∷ blocks) l g =
      bind-Goes (convert_block lib role block l) (convert_blocks lib role blocks)
        (convert_block-Goes block l g) (convert_blocks-Goes blocks)

  on_blocks-Goes :
      (call_ids : Dict String String) (o : Option (List (Option Fields)))
      → Consistent lib call_ids
      → Goes (on_blocks lib role call_ids o)
  on_blocks-Goes call_ids none h = tt
  on_blocks-Goes call_ids (some blocks) h =
      convert_blocks-Goes blocks (record { call_ids = call_ids; done = []; pending = [] })
        (record { consistent = h; well_formed = tt })

  whole_text-IsGood :
      (call_ids : Dict String String) (text : String)
      → Consistent lib call_ids
      → IsGood lib role (whole_text role call_ids text)
  whole_text-IsGood call_ids text h = record {
    consistent = h;
    well_formed = (IsItem.message (part (part_type_of role) text) [] refl, tt);
  }

  -- `convertContent` fails or gives messages of the role with at least one part, calls of the assistant
  -- that have a name, and results, whose ids have at most 64 bytes; the ids that it has registered stay
  -- those that it would compute again.
  pub convert_content-Goes :
      (call_ids : Dict String String) (content : Option Json)
      → Consistent lib call_ids
      → Goes (convert_content lib role call_ids content)
  unfolding convert_content
  convert_content-Goes call_ids none h = tt
  convert_content-Goes call_ids (some (str text)) h = whole_text-IsGood call_ids text h
  convert_content-Goes call_ids (some null) h = whole_text-IsGood call_ids "" h
  convert_content-Goes call_ids (some (arr vs)) h =
      on_blocks-Goes call_ids (block_maps (items vs)) h
  convert_content-Goes call_ids (some (bool b)) h = tt
  convert_content-Goes call_ids (some (num w f)) h = tt
  convert_content-Goes call_ids (some (obj fs)) h = tt
