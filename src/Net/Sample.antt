-- ===== src/Net/Sample.antt =====
-- Addresses for tests.
use actions.Prelude.{true, [], ◌∷◌, none, some, if◌then◌else◌}
use actions.Text.{Text, text_eq}
use actions.Net.Mapping.{Netip}

-- The addresses of the test are texts of version 4.
abbrev pub netip : Netip
netip = record {
  Addr = Text;
  parse_addr = λ text. if text_eq text [] then none else some text;
  is4 = λ addr. true;
  as_slice = λ addr. 255 ∷ 255 ∷ 255 ∷ 0 ∷ [];
  addr_text = λ addr. addr;
  prefix_text = λ addr bits. addr;
  parse_prefix = λ text. some (text, 24);
  masked = λ addr bits. addr;
}
