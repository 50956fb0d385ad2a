-- ===== src/Http.antt =====
-- Answers of net/http to a GET request, and what the program reads of them with the package io. The
-- transport is a parameter of the parts that use it.
pub mod Answered
mod Tests
use actions.Prelude.{
  ℕ, Bool, ◌&&◌, List, [], ◌∷◌, ◌++◌, Option, none, some, length, take, ltb, if◌then◌else◌,
}
use actions.Text.{Text}
use actions.Uki.{Bytes}

-- A reader: the bytes that its calls give, one after the other, and whether it ends in an error.
pub record Stream : Type 0 where
  pub chunks : List Bytes
  pub fails : Bool

pub record Response : Type 0 where
  pub status : ℕ
  pub body : Stream

-- All bytes of a reader.
unfoldable pub content : List Bytes → Bytes
content [] = []
content (c ∷ chunks) = c ++ content chunks

-- io.ReadAll(io.LimitReader(r, limit)): after so many bytes the reader is not asked again. none where
-- it ends in an error before.
unfoldable pub read_limited : ℕ → Stream → Option Bytes
unfolding content
read_limited limit s =
    if s.fails && ltb (length (content s.chunks)) limit
    then none
    else some (take limit (content s.chunks))

-- http.NewRequestWithContext accepts the URL, and client.Do for a GET request: none is an error.
pub record Transport : Type 0 where
  pub accepts_url : Text → Bool
  pub get : Text → Option Response
