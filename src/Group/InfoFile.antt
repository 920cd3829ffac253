-- ===== src/Group/InfoFile.antt =====
-- The socket info file of src/connection/connection_group.cpp, what the calls write_info and
-- remove_info of Os stand for: its name, from what getsockname gives, and its contents. inet_ntop
-- is a parameter, as in Addr.Print.
use srtla.Base.{ℕ, ◌^◌, ◌<◌, ◌≡◌, refl, ◌∙◌, ap, false, Option, List, [], ◌∷◌, ◌++◌, map, arith}
use srtla.Addr.{SockAddr}
use srtla.Addr.Print.{print_addr}
use srtla.NetworkUtils.{get_local_port}
use srtla.Text.{Text, codes, has, lines, to_string}
use srtla.Text.Decimal.{natural-to_string}
use srtla.Text.Lines.{lines_line}

unfoldable pub info_file_name : Option SockAddr → Text
info_file_name local_addr = codes "/tmp/srtla-group-" ++ to_string (get_local_port local_addr)

module _ (inet_ntop : ℕ → List ℕ → Text) where
  unfoldable pub info_text : List SockAddr → Text
  info_text [] = []
  info_text (addr ∷ addrs) = print_addr inet_ntop addr ++ (b'\n' ∷ info_text addrs)

  -- The file has a line for each address, in the order of the connections.
  pub lines-info_text :
      (addrs : List SockAddr)
      → ((addr : SockAddr) → has b'\n' (print_addr inet_ntop addr) ≡ false)
      → lines (info_text addrs) ≡ map (print_addr inet_ntop) addrs
  unfolding info_text
  lines-info_text [] plain = unfold lines in refl
  lines-info_text (addr ∷ addrs) plain =
      lines_line (print_addr inet_ntop addr) (info_text addrs) (plain addr)
      ∙ ap (λ ls. print_addr inet_ntop addr ∷ ls) (lines-info_text addrs plain)

-- Two sockets with one name of the file have one local port.
pub same_file :
    (a b : Option SockAddr)
    → get_local_port a < 2 ^ 16
    → get_local_port b < 2 ^ 16
    → info_file_name a ≡ info_file_name b
    → get_local_port a ≡ get_local_port b
unfolding info_file_name
same_file a b la lb e =
    let behind : to_string (get_local_port a) ≡ to_string (get_local_port b) = cc e in
    let na = natural-to_string (get_local_port a) (omega arith) in
    let nb = natural-to_string (get_local_port b) (omega arith) in cc (behind, na, nb)
