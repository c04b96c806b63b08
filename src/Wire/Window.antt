-- ===== src/Wire/Window.antt =====
-- The windows of libs/myko/core/src/wire/query.rs, over the ids `Arc<str>`.
use myko.Base.{ℕ, Option, none, some}
use myko.Base.Text.{Str}

pub record QueryWindow : Type 0 where
  pub offset : ℕ
  pub limit : ℕ

-- `after` and `before` are exclusive bounds.
pub record QueryCursorWindow : Type 0 where
  pub after : Option Str
  pub before : Option Str
  pub limit : ℕ

unfoldable pub first : ℕ → QueryCursorWindow
first limit = record { after = none; before = none; limit = limit }

unfoldable pub after : Str → ℕ → QueryCursorWindow
after cursor limit = record { after = some cursor; before = none; limit = limit }

unfoldable pub before : Str → ℕ → QueryCursorWindow
before cursor limit = record { after = none; before = some cursor; limit = limit }
