-- ===== src/McpSchema/Passing.antt =====
-- common/mcphub/schema.go: the schemas that normalizeSchema lets pass.
use haruka_ai.Base.{
  ℕ, ◌≤◌, ◌≡◌, refl, subst, Bool, true, false, if◌then◌else◌, Str, codes, Option, some, none, arith,
  ltb, ◌==◌, not, ◌&&◌, ◌||◌, length,
}
use haruka_ai.McpSchema.Json.{Json, Fields, object_or_empty, Library}
use haruka_ai.McpSchema.Keywords.{schema_allows_type}
use haruka_ai.McpSchema.Node.{Verdict, accepted, rejected, validate_schema_node, max_schema_depth}
use haruka_ai.McpSchema.Tool.{
  normalize_schema, normalize_single, normalize_decoded, encoded, all_levels, as_map, with_type,
  max_tool_schema_bytes,
}
use haruka_ai.McpSchema.Nested.{Inside}
use haruka_ai.McpSchema.Sane.{Sane, Inside-Sane}

module _ ⦃lib : Library⦄ where
  encoded-some :
      (fields schema : Fields) (v : Verdict) (m : Option Str) (canonical : Str)
      → encoded fields v m ≡ some (canonical, schema)
      → (v ≡ accepted) × (fields ≡ schema)
  unfolding encoded
  encoded-some fields schema (rejected fault) m canonical h = absurd (ground arith)
  encoded-some fields schema accepted none canonical h = absurd (ground arith)
  encoded-some fields schema accepted (some bytes) canonical h = (refl, cc)

  some-unless :
      {A : Type 0}
      → (b : Bool) (x : Option A) (a : A) → (if b then none else x) ≡ some a
      → x ≡ some a
  some-unless true x a h = absurd (ground arith)
  some-unless false x a h = h

  some-only :
      {A : Type 0}
      → (b : Bool) (x : Option A) (a : A) → (if b then x else none) ≡ some a
      → x ≡ some a
  some-only true x a h = h
  some-only false x a h = absurd (ground arith)

  normalize_decoded-accepted :
      (require_object : Bool) (decoded : Json) (canonical : Str) (schema : Fields)
      → normalize_decoded require_object decoded ≡ some (canonical, schema)
      → validate_schema_node all_levels schema schema ≡ accepted
  unfolding normalize_decoded
  normalize_decoded-accepted require_object decoded canonical schema h =
      let fields = object_or_empty (some decoded) in
      let refused = require_object && not (schema_allows_type fields (codes "object")) in
      let verdict = validate_schema_node all_levels fields fields in
      let result =
        some-unless refused (encoded fields verdict (lib.marshal decoded)) (canonical, schema) h in
      let (valid, same) =
        encoded-some fields schema verdict (lib.marshal decoded) canonical result in
      subst (λ z. validate_schema_node all_levels z z ≡ accepted) same valid

  normalize_single-accepted :
      (require_object : Bool) (decoded : Option (Json × Str)) (canonical : Str) (schema : Fields)
      → normalize_single require_object decoded ≡ some (canonical, schema)
      → validate_schema_node all_levels schema schema ≡ accepted
  unfolding normalize_single
  normalize_single-accepted require_object none canonical schema h = absurd (ground arith)
  normalize_single-accepted require_object (some (decoded, rest)) canonical schema h =
      normalize_decoded-accepted require_object (with_type decoded) canonical schema (
        some-only (lib.at_end rest) (normalize_decoded require_object (with_type decoded))
          (canonical, schema) h)

  normalize_schema-accepted :
      (raw : Str) (require_object : Bool) (canonical : Str) (schema : Fields)
      → normalize_schema raw require_object ≡ some (canonical, schema)
      → validate_schema_node all_levels schema schema ≡ accepted
  unfolding normalize_schema
  normalize_schema-accepted raw require_object canonical schema h =
      let decoded = as_map (lib.decode raw) in
      normalize_single-accepted require_object decoded canonical schema (
        some-unless (length raw == 0 || ltb max_tool_schema_bytes (length raw))
          (normalize_single require_object decoded) (canonical, schema) h)

  -- A schema that normalizeSchema lets pass has schemas inside it 32 levels deep at most, and it and
  -- each of these is sane: a reference in it leads to an object of the whole schema, its type is one
  -- of JSON's or a list of these, its pattern compiles, and every property that it requires is one of
  -- its properties.
  pub normalize_schema-Sane :
      (raw : Str) (require_object : Bool) (canonical : Str) (schema : Fields) (n : ℕ)
      (inner : Fields)
      → normalize_schema raw require_object ≡ some (canonical, schema)
      → Inside schema n inner
      → (n ≤ max_schema_depth) × Sane schema inner
  normalize_schema-Sane raw require_object canonical schema n inner h i =
      Inside-Sane schema i (normalize_schema-accepted raw require_object canonical schema h)
