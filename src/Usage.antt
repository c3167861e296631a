-- ===== src/Usage.antt =====
-- provider.go: the token accounting of a completion. Every field is a 64-bit `int`.
pub mod Laws
pub mod Merging
use golm.Common.{ℕ, Bool, Int64, add_int, lt_int, if◌then◌else◌}

pub record Usage : Type 0 where
  pub input_tokens : Int64
  pub output_tokens : Int64
  pub thinking_tokens : Int64
  pub cache_read_tokens : Int64
  pub cache_write_tokens : Int64
  pub cache_write5m_tokens : Int64
  pub cache_write1h_tokens : Int64
  pub lost_completions : Int64

-- Go's zero value.
abbrev pub no_usage : Usage
no_usage = record {
  input_tokens = 0;
  output_tokens = 0;
  thinking_tokens = 0;
  cache_read_tokens = 0;
  cache_write_tokens = 0;
  cache_write5m_tokens = 0;
  cache_write1h_tokens = 0;
  lost_completions = 0;
}

unfoldable pub add : Usage → Usage → Usage
add u o = record {
  input_tokens = add_int u.input_tokens o.input_tokens;
  output_tokens = add_int u.output_tokens o.output_tokens;
  thinking_tokens = add_int u.thinking_tokens o.thinking_tokens;
  cache_read_tokens = add_int u.cache_read_tokens o.cache_read_tokens;
  cache_write_tokens = add_int u.cache_write_tokens o.cache_write_tokens;
  cache_write5m_tokens = add_int u.cache_write5m_tokens o.cache_write5m_tokens;
  cache_write1h_tokens = add_int u.cache_write1h_tokens o.cache_write1h_tokens;
  lost_completions = add_int u.lost_completions o.lost_completions;
}

unfoldable pub total : Usage → Int64
total u = add_int (add_int u.input_tokens u.output_tokens) u.thinking_tokens

-- The closure `pick` of `Merge`.
unfoldable pub pick : Int64 → Int64 → Int64
pick a b = if lt_int a b then b else a

merge_fields : Usage → Usage → Usage
merge_fields u o = record u {
  input_tokens = pick u.input_tokens o.input_tokens;
  output_tokens = pick u.output_tokens o.output_tokens;
  thinking_tokens = pick u.thinking_tokens o.thinking_tokens;
  cache_read_tokens = pick u.cache_read_tokens o.cache_read_tokens;
  cache_write_tokens = pick u.cache_write_tokens o.cache_write_tokens;
  cache_write5m_tokens = pick u.cache_write5m_tokens o.cache_write5m_tokens;
  cache_write1h_tokens = pick u.cache_write1h_tokens o.cache_write1h_tokens;
}

-- The check at the end of `Merge`: a split that exceeds the whole is dropped.
drop_split : Usage → Usage
drop_split u =
    if lt_int u.cache_write_tokens (add_int u.cache_write5m_tokens u.cache_write1h_tokens)
    then record u { cache_write5m_tokens = 0; cache_write1h_tokens = 0 }
    else u

unfoldable pub merge : Usage → Usage → Usage
unfolding pick merge_fields drop_split
merge u o = drop_split (merge_fields u o)
