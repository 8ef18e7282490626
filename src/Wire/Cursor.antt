-- ===== src/Wire/Cursor.antt =====
-- `std::io::Cursor<&[u8]>` of Rust's standard library.
use stacks_encoding_native_j.Prelude.{ℕ, List, ◌++◌, length}

-- The slice is `consumed ++ rest`, and the position lies between the two.
pub record Cursor : Type 0 where
  pub consumed : List ℕ
  pub rest : List ℕ

unfoldable pub position : Cursor → ℕ
position c = length c.consumed

abbrev pub get_ref : Cursor → List ℕ
get_ref c = c.consumed ++ c.rest
