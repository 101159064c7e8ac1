-- ===== src/Rag/Documents.antt =====
-- common/rag/chunk.go: what a document is cut into.
use haruka_ai.Base.{suc, ◌≤◌, ◌≡◌, refl, subst, List, Str, length, Option, none, some, arith}
use haruka_ai.Rag.Boundaries.{ChunkOptions, normalized_chunk_options}
use haruka_ai.Rag.Headings.{parse_markdown_headings}
use haruka_ai.Rag.Chunk.{TextChunk, chunk_markdown}
use haruka_ai.Rag.Ends.{normalized_chunk_options-Usable}
use haruka_ai.Rag.Round.{Covered, Pieces, Good}
use haruka_ai.Rag.Cutting.{Returns, GoodResult, loop-Good, loop-Returns}

sizes-ordered :
    (options : ChunkOptions)
    → (normalized_chunk_options options).min_size ≤ (normalized_chunk_options options).max_size
sizes-ordered options = omega (arith, (normalized_chunk_options-Usable options).min_below)

-- The options' limit in force is two runes or more: then every document is cut into chunks, the fuel
-- of one round for each rune and one more being enough.
pub chunk_markdown-total :
    (sha256_hex : Str → Str) (document runes : Str) (options : ChunkOptions)
    → 2 ≤ (normalized_chunk_options options).max_size
    → (cs : List TextChunk) × (chunk_markdown sha256_hex document runes options ≡ some cs)
chunk_markdown-total sha256_hex document runes options h =
    found (chunk_markdown sha256_hex document runes options) (
      unfold chunk_markdown in
      loop-Returns sha256_hex document runes (parse_markdown_headings runes)
        (normalized_chunk_options options)
        ((normalized_chunk_options-Usable options).min_Positive h) (sizes-ordered options)
        (suc (length runes)) 0 0 (omega arith))
  where
    found :
        (o : Option (List TextChunk))
        → Returns sha256_hex document runes
            (parse_markdown_headings runes)
            (normalized_chunk_options options)
            o
        → (cs : List TextChunk) × (o ≡ some cs)
    found none h = absurd h
    found (some cs) h = (cs, refl)

chunk_markdown-Good :
    (sha256_hex : Str → Str) (document runes : Str) (options : ChunkOptions) (cs : List TextChunk)
    → chunk_markdown sha256_hex document runes options ≡ some cs
    → Good sha256_hex document runes
        (parse_markdown_headings runes)
        (normalized_chunk_options options)
        0
        0
        0
        cs
chunk_markdown-Good sha256_hex document runes options cs e =
    subst
      (GoodResult sha256_hex document runes (parse_markdown_headings runes)
        (normalized_chunk_options options) 0 0 0)
      e
      (unfold chunk_markdown in
        loop-Good sha256_hex document runes (parse_markdown_headings runes)
          (normalized_chunk_options options) (sizes-ordered options) (suc (length runes)) 0 0)

-- The chunks of a document hold each of its runes that is not white space.
pub chunk_markdown-Covered :
    (sha256_hex : Str → Str) (document runes : Str) (options : ChunkOptions) (cs : List TextChunk)
    → chunk_markdown sha256_hex document runes options ≡ some cs
    → Covered runes 0 cs
chunk_markdown-Covered sha256_hex document runes options cs e =
    (chunk_markdown-Good sha256_hex document runes options cs e).covers

-- The chunks of a document are numbered from zero in order; each is a range of it that is not empty,
-- within the document and no longer than the limit in force, starts and ends with a rune that is not
-- white space, and has the content, the heading path and the name of that range; and each goes back
-- behind the end of the one before it by the overlap at most.
pub chunk_markdown-Pieces :
    (sha256_hex : Str → Str) (document runes : Str) (options : ChunkOptions) (cs : List TextChunk)
    → chunk_markdown sha256_hex document runes options ≡ some cs
    → Pieces sha256_hex document runes
        (parse_markdown_headings runes)
        (normalized_chunk_options options)
        0
        0
        cs
chunk_markdown-Pieces sha256_hex document runes options cs e =
    (chunk_markdown-Good sha256_hex document runes options cs e).pieces
