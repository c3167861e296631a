-- ===== src/Usage/Laws.antt =====
-- provider.go: `Usage.Add` as an operation on usages.
use golm.Common.{◌≡◌, ◌<◌, arith, int_mod}
use golm.Usage.{Usage, no_usage, add}

-- What an `int` field holds: a 64-bit pattern.
pub record InRange (u : Usage) : Type 0 where
  pub input : u.input_tokens < int_mod
  pub output : u.output_tokens < int_mod
  pub thinking : u.thinking_tokens < int_mod
  pub cache_read : u.cache_read_tokens < int_mod
  pub cache_write : u.cache_write_tokens < int_mod
  pub cache_write5m : u.cache_write5m_tokens < int_mod
  pub cache_write1h : u.cache_write1h_tokens < int_mod
  pub lost : u.lost_completions < int_mod

pub add-InRange : (u v : Usage) → InRange (add u v)
unfolding add
add-InRange u v = omega arith

pub add_comm : (u v : Usage) → add u v ≡ add v u
unfolding add
add_comm u v = ground arith

pub add_assoc : (u v w : Usage) → add (add u v) w ≡ add u (add v w)
unfolding add
add_assoc u v w = ground arith

pub add_none : (u : Usage) → InRange u → add u no_usage ≡ u
unfolding add
add_none u h = ground arith
