-- ===== src/Response.antt =====
-- src/response.rs: owned responses.
use ruvoy.Prelude.{ℕ, List, Bytes}

pub record Response : Type 0 where
  pub status : ℕ
  pub headers : List (Bytes × Bytes)
  pub body : Bytes
  pub ruby_thread_object_id : ℕ

pub record ResponseHead : Type 0 where
  pub status : ℕ
  pub headers : List (Bytes × Bytes)
  pub ruby_thread_object_id : ℕ
