-- ===== src/Rag/Tests.antt =====
-- The chunks of concrete documents.
use haruka_ai.Base.{
  ℕ, ◌≤◌, ◌≡◌, ◌≢◌, ◌⊎◌, refl, map, List, [], ◌∷◌, ◌++◌, Str, codes, Option, none, some, pos as int,
  negsuc, arith,
}
use haruka_ai.Rag.Boundaries.{ChunkOptions, normalized_chunk_options}
use haruka_ai.Rag.Headings.{parse_markdown_headings}
use haruka_ai.Rag.Chunk.{TextChunk, chunks_from, chunk_markdown}
use haruka_ai.Rag.Round.{Covered, Pieces}
use haruka_ai.Rag.Documents.{chunk_markdown-total, chunk_markdown-Covered, chunk_markdown-Pieces}
use haruka_ai.Rag.Stuck.{chunks_from-stuck}
use haruka_ai.Rag.Identity.{stable_chunk_id-injective}

-- A digest of the test: the text itself.
abbrev digest : Str → Str
digest s = s

abbrev small : ChunkOptions
small = record { max_runes = int 8; min_runes = negsuc 0; overlap_runes = int 2 }

abbrev document : Str
document = codes "# A" ++ 10 ∷ 10 ∷ codes "one. two three"

chunk_markdown-total_example :
    (cs : List TextChunk) × (chunk_markdown digest (codes "d") document small ≡ some cs)
chunk_markdown-total_example =
    chunk_markdown-total digest (codes "d") document small
      (unfold normalized_chunk_options in omega arith)

contents : Option (List TextChunk) → List (Str × Str)
contents none = []
contents (some cs) = map (λ (c : TextChunk). (c.content, c.heading)) cs

contents_lem :
    contents (chunk_markdown digest (codes "d") document small)
    ≡ (codes "# A", codes "A")
      ∷ (codes "one.", codes "A")
      ∷ (codes "e. two", codes "A")
      ∷ (codes "o three", codes "A")
      ∷ []
unfolding chunk_markdown contents
contents_lem = refl

small_lem : 2 ≤ (normalized_chunk_options small).max_size
unfolding normalized_chunk_options
small_lem = omega arith

abbrev chunks : List TextChunk
chunks = (chunk_markdown-total digest (codes "d") document small small_lem).0

chunks_lem : chunk_markdown digest (codes "d") document small ≡ some chunks
chunks_lem = (chunk_markdown-total digest (codes "d") document small small_lem).1

chunk_markdown-Covered_example : Covered document 0 chunks
chunk_markdown-Covered_example =
    chunk_markdown-Covered digest (codes "d") document small chunks chunks_lem

chunk_markdown-Pieces_example :
    Pieces digest
      (codes "d")
      document
      (parse_markdown_headings document)
      (normalized_chunk_options small)
      0
      0
      chunks
chunk_markdown-Pieces_example =
    chunk_markdown-Pieces digest (codes "d") document small chunks chunks_lem

chunks_from-stuck_example :
    let text = 10 ∷ codes "bcd" in
    chunks_from digest
      (codes "d")
      text
      (parse_markdown_headings text)
      (normalized_chunk_options
        (record { max_runes = int 1; min_runes = negsuc 0; overlap_runes = int 9 }))
      1000
      0
      0
    ≡ none
chunks_from-stuck_example =
    chunks_from-stuck digest (codes "d") b'b' b'c' (codes "d") (negsuc 0) (int 9) 1000 (omega arith)

stable_chunk_id-injective_example :
    ((codes "d" ≡ codes "d") × (◌≡◌ {A = ℕ} 1 1) × (◌≡◌ {A = ℕ} 12 12) × (codes "x" ≡ codes "x"))
    ⊎ ((x : Str) × (y : Str) × (x ≢ y) × (digest x ≡ digest y))
stable_chunk_id-injective_example =
    stable_chunk_id-injective digest (codes "d") (codes "d") 1 1 12 12 (codes "x") (codes "x")
      (omega arith, tt) (omega arith, tt) refl
