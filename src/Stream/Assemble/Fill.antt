-- ===== src/Stream/Assemble/Fill.antt =====
-- The content of blocks that are partly written, with what the later events say.
use Prim.Native.String
use text.Mathlib.TextLemmas.{nil-append, append-nil}
use mathlib.Core.Path.{ap₂}
use mathlib.Core.List.{append_assoc as append_assoc_list}
use claudodex.Common.{length-append}
use claudodex.Common.{
  ℕ, zero, suc, ◌+◌, ◌≤◌, String, ◌≡◌, ◌≢◌, refl, sym, ap, ◌∙◌, List, [], ◌∷◌, ◌++◌, map, length,
  arith, string_key,
}
use claudodex.Common.Int.{ℤ, pos, negsuc}
use claudodex.Json.{Codec}
use claudodex.Stream.{
  Block, text_block, thinking_block, tool_use, server_tool_use, web_search_tool_result, Delta, Sse,
  content_block_start, content_block_delta,
}
use claudodex.Stream.Assemble.{
  AssembledBlock, text_of, thinking_of, signature_of, partial_json_of, write_as, write_nth,
  write_at, started_block, Content, text_content, thinking_content, tool_content,
  server_tool_content, input_of, content_of,
}
use claudodex.Stream.Assemble.Described.{said, said_by, contents, said-other, said-append}

start-write_as :
    (kind : Block) (d : Delta) (b : AssembledBlock) → (write_as kind d b).start ≡ b.start
start-write_as text_block d b = refl
start-write_as thinking_block d b = refl
start-write_as (tool_use id name) d b = refl
start-write_as (server_tool_use id) d b = refl
start-write_as (web_search_tool_result id content) d b = refl

pos_ne : (n k : ℕ) → n ≢ k → pos n ≢ pos k
pos_ne n k ne e = ground (arith, ne, e)

neg_ne : (n k : ℕ) → negsuc n ≢ pos k
neg_ne n k e = ground (arith, e)

module _ (codec : Codec) where
  -- The content of a block, with what the later events say at its index.
  abbrev pub content_as : Block → AssembledBlock → ℕ → List Sse → Content
  content_as kind b k es =
      content_of codec kind (String.◌++◌ b.text (said (said_by kind) k es))
        (String.◌++◌ b.signature (said signature_of k es))
        (String.◌++◌ b.args (said partial_json_of k es))

  abbrev pub content_with : AssembledBlock → ℕ → List Sse → Content
  content_with b k es = content_as b.start b k es

  abbrev pub contents_at : ℕ → List AssembledBlock → List Sse → List Content
  contents_at k [] es = []
  contents_at k (b ∷ bs) es = content_with b k es ∷ contents_at (suc k) bs es

  content_as-same :
      (f g : List Sse) (k : ℕ) (kind : Block) (b : AssembledBlock)
      → ((pick : Delta → String) → said pick k f ≡ said pick k g)
      → content_as kind b k f ≡ content_as kind b k g
  content_as-same f g k kind b h = rw (h (said_by kind), h signature_of, h partial_json_of) refl

  pub contents_at-same :
      (f g : List Sse) (k : ℕ) (bs : List AssembledBlock)
      → ((pick : Delta → String) (n : ℕ) → k ≤ n → said pick n f ≡ said pick n g)
      → contents_at k bs f ≡ contents_at k bs g
  contents_at-same f g k [] h = refl
  contents_at-same f g k (b ∷ bs) h =
      ap₂ (λ c cs. c ∷ cs) (content_as-same f g k b.start b (λ pick. h pick k (omega arith)))
        (contents_at-same f g (suc k) bs (λ pick n le. h pick n (omega (arith, le))))

  content_as-write_as :
      (kind : Block) (b : AssembledBlock) (k : ℕ) (d : Delta) (es : List Sse)
      → content_as kind (write_as kind d b) k es
        ≡ content_as kind b k (content_block_delta (pos k) d ∷ es)
  content_as-write_as text_block b k d es = ap text_content (said-append text_of b.text k d es)
  content_as-write_as thinking_block b k d es =
      ap₂ thinking_content (said-append thinking_of b.text k d es)
        (said-append signature_of b.signature k d es)
  content_as-write_as (tool_use id name) b k d es =
      ap (λ args. tool_content id name (input_of codec args))
        (said-append partial_json_of b.args k d es)
  content_as-write_as (server_tool_use id) b k d es =
      ap (λ args. server_tool_content id (input_of codec args))
        (said-append partial_json_of b.args k d es)
  content_as-write_as (web_search_tool_result id content) b k d es = refl

  content_with-write_as :
      (b : AssembledBlock) (k : ℕ) (d : Delta) (es : List Sse)
      → content_with (write_as b.start d b) k es
        ≡ content_with b k (content_block_delta (pos k) d ∷ es)
  content_with-write_as b k d es =
      ap (λ kind. content_as kind (write_as b.start d b) k es) (start-write_as b.start d b)
      ∙ content_as-write_as b.start b k d es

  -- A delta is written to the block at its index, or left aside.
  contents_at-write_nth :
      (i k m : ℕ) (d : Delta) (bs : List AssembledBlock) (es : List Sse)
      → i ≡ k + m
      → contents_at k (write_nth m d bs) es ≡ contents_at k bs (content_block_delta (pos i) d ∷ es)
  contents_at-write_nth i k m d [] es h = refl
  contents_at-write_nth i k zero d (b ∷ bs) es h =
      ap₂ (λ c cs. c ∷ cs)
        (content_with-write_as b k d es
          ∙ ap (λ n. content_with b k (content_block_delta (pos n) d ∷ es)) (omega (arith, h)))
        (contents_at-same es (content_block_delta (pos i) d ∷ es) (suc k) bs (λ pick n le.
          sym (said-other pick n (pos i) d es (pos_ne i n (λ e. omega (arith, h, e, le))))))
  contents_at-write_nth i k (suc m) d (b ∷ bs) es h =
      ap₂ (λ c cs. c ∷ cs)
        (content_as-same es (content_block_delta (pos i) d ∷ es) k b.start b
          (λ pick. sym (said-other pick k (pos i) d es (pos_ne i k (λ e. omega (arith, h, e))))))
        (contents_at-write_nth i (suc k) m d bs es (omega (arith, h)))

  pub contents_at-write_at :
      (i : ℤ) (d : Delta) (bs : List AssembledBlock) (es : List Sse)
      → contents_at 0 (write_at i d bs) es ≡ contents_at 0 bs (content_block_delta i d ∷ es)
  contents_at-write_at (pos n) d bs es = contents_at-write_nth n 0 n d bs es (omega arith)
  contents_at-write_at (negsuc n) d bs es =
      contents_at-same es (content_block_delta (negsuc n) d ∷ es) 0 bs
        (λ pick k le. sym (said-other pick k (negsuc n) d es (neg_ne n k)))

  contents_at-append :
      (k : ℕ) (bs : List AssembledBlock) (b : AssembledBlock) (es : List Sse)
      → contents_at k (bs ++ b ∷ []) es
        ≡ contents_at k bs es ++ content_with b (k + length bs) es ∷ []
  contents_at-append k [] b es = ap (λ n. content_with b n es ∷ []) (omega arith)
  contents_at-append k (c ∷ bs) b es =
      ap (λ cs. content_with c k es ∷ cs)
        (contents_at-append (suc k) bs b es
          ∙ ap (λ n. contents_at (suc k) bs es ++ content_with b n es ∷ []) (omega arith))

  length-write_nth :
      (n : ℕ) (d : Delta) (bs : List AssembledBlock) → length (write_nth n d bs) ≡ length bs
  length-write_nth n d [] = refl
  length-write_nth zero d (b ∷ bs) = refl
  length-write_nth (suc n) d (b ∷ bs) = omega (arith, length-write_nth n d bs)

  pub length-write_at :
      (i : ℤ) (d : Delta) (bs : List AssembledBlock) → length (write_at i d bs) ≡ length bs
  length-write_at (pos n) d bs = length-write_nth n d bs
  length-write_at (negsuc n) d bs = refl

  pub contents_at_done :
      (k : ℕ) (bs : List AssembledBlock)
      → map (λ (b : AssembledBlock). content_of codec b.start b.text b.signature b.args) bs
        ≡ contents_at k bs []
  contents_at_done k [] = refl
  contents_at_done k (b ∷ bs) =
      ap₂ (λ c cs. c ∷ cs) (rw (append-nil b.text, append-nil b.signature, append-nil b.args) refl)
        (contents_at_done (suc k) bs)

  content_with-started_block :
      (b : Block) (k : ℕ) (es : List Sse)
      → content_with (started_block b) k es
        ≡ content_of codec b
            (said (said_by b) k es)
            (said signature_of k es)
            (said partial_json_of k es)
  content_with-started_block b k es =
      rw
        (
          nil-append (said (said_by b) k es),
          nil-append (said signature_of k es),
          nil-append (said partial_json_of k es),
        )
        refl

  abbrev pub all_contents : List AssembledBlock → List Sse → List Content
  all_contents bs es = contents_at 0 bs es ++ contents codec (length bs) es

  pub all_contents-start :
      (i : ℤ) (b : Block) (bs : List AssembledBlock) (es : List Sse)
      → all_contents (bs ++ started_block b ∷ []) es
        ≡ all_contents bs (content_block_start i b ∷ es)
  all_contents-start i b bs es =
      ap₂ (λ cs n. cs ++ contents codec n es) (contents_at-append 0 bs (started_block b) es)
        (omega (arith, length-append bs (started_block b ∷ [])))
      ∙ append_assoc_list (contents_at 0 bs es)
          (content_with (started_block b) (0 + length bs) es ∷ [])
          (contents codec (suc (length bs)) es)
      ∙ ap₂ (λ cs c. cs ++ c ∷ contents codec (suc (length bs)) es)
          (contents_at-same es (content_block_start i b ∷ es) 0 bs (λ pick n le. refl))
          (ap (λ n. content_with (started_block b) n es) (omega arith)
            ∙ content_with-started_block b (length bs) es)
