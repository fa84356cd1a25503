-- ===== src/Interfaces/Tests.antt =====
-- A configuration of two files, and the theorems at it.
use base_line_prox.Base.{◌≡◌, refl, [], ◌∷◌, codes_eq, nat_eq, arith, ok}
use base_line_prox.Base.Dict.{Dict, lookup, insert, Entries}
use base_line_prox.Base.Text.{codes}
use base_line_prox.Base.Lines.{split_lines, keep_lines, words, strip, strip_start, strip_codes}
use base_line_prox.Base.Sorting.{sort_texts}
use base_line_prox.Interfaces.Data.{Text}
use base_line_prox.Interfaces.Recognize.{
  iface_header, source_target, source_directory, is_auto, option_line, is_comment_or_blank,
  has_glob_metachars,
}
use base_line_prox.Interfaces.Parser.{parse_files}
use base_line_prox.Interfaces.Rewrite.{rewrite_stanza_to_dhcp, add_dhcp_stanza}
use base_line_prox.Interfaces.Closure.{content, closure_text, IsPlainFile, closure_text_same}

abbrev files : Dict Text Text
files =
    (
      codes "/etc/network/interfaces",
      codes
          "auto vmbr0\niface vmbr0 inet6 static\n\taddress fd00::2/64\n\tbridge-ports eno1  eno2\nsource /etc/network/more\n",
    )
    ∷ (codes "/etc/network/more", codes "iface eno1 inet static\r\n address 192.0.2.2\r\n# end\r\n")
    ∷ []

resets :
    rewrite_stanza_to_dhcp (parse_files files) (codes "eno1")
    ≡ ok (
        (
          codes "/etc/network/interfaces",
          codes
              "auto vmbr0\niface vmbr0 inet6 static\n\taddress fd00::2/64\n\tbridge-ports eno1  eno2\nsource /etc/network/more\n",
        )
        ∷ (codes "/etc/network/more", codes "iface eno1 inet dhcp\r\n")
        ∷ [])
unfolding parse_files rewrite_stanza_to_dhcp lookup insert codes_eq nat_eq split_lines keep_lines
    words strip strip_start strip_codes iface_header source_target source_directory is_auto
    option_line is_comment_or_blank has_glob_metachars
resets = refl

adds :
    add_dhcp_stanza (parse_files files) (codes "vmbr0")
    ≡ ok (
        (
          codes "/etc/network/interfaces",
          codes
              "auto vmbr0\niface vmbr0 inet6 static\n\taddress fd00::2/64\n\tbridge-ports eno1  eno2\n\niface vmbr0 inet dhcp\nsource /etc/network/more\n",
        )
        ∷ (
          codes "/etc/network/more",
          codes "iface eno1 inet static\r\n address 192.0.2.2\r\n# end\r\n",
        )
        ∷ [])
unfolding parse_files add_dhcp_stanza lookup insert codes_eq nat_eq split_lines keep_lines words
    strip strip_start strip_codes iface_header source_target source_directory is_auto option_line
    is_comment_or_blank has_glob_metachars
adds = refl

abbrev pair : Dict Text Text
pair = (codes "/a", codes "x") ∷ (codes "/b", codes "y") ∷ []

abbrev swapped : Dict Text Text
swapped = (codes "/b", codes "y") ∷ (codes "/a", codes "x") ∷ []

same_closure : closure_text pair ≡ closure_text swapped
unfolding closure_text sort_texts lookup codes_eq nat_eq
same_closure = refl

plain_pair : Entries IsPlainFile pair
plain_pair = omega arith

plain_swapped : Entries IsPlainFile swapped
plain_swapped = omega arith

closure_text_same_example : content (codes "/a") pair ≡ content (codes "/a") swapped
closure_text_same_example =
    closure_text_same pair swapped plain_pair plain_swapped same_closure (codes "/a")
