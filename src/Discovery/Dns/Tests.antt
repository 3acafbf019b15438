-- ===== src/Discovery/Dns/Tests.antt =====
-- A response with a question and a record whose names are compressed, and its bounds.
use rustorr.Domain.Hash.Digits.{to_ascii_lowercase}
use rustorr.Base.Map.{insert, lookup}
use rustorr.Base.{
  ℕ, ◌+◌, ◌*◌, ◌≤◌, ◌≡◌, ap, ◌∙◌, refl, true, false, some, List, [], ◌∷◌, length, ◌%◌, min, arith,
}
use rustorr.Text.{Text, join, is_empty_text, split, text_eq, trim_end}
use rustorr.Discovery.Dns.{Message, ptr, kind}
use rustorr.Discovery.Dns.Parse.{field, parse}
use rustorr.Discovery.Dns.Pack.{pack}
use rustorr.Discovery.Dns.Pack.Header.{parse-pack_header}
use rustorr.Discovery.Dns.Parse.Bounds.{parse-bounds}

abbrev packet : List ℕ
packet =
    18 ∷ 52 ∷ 132 ∷ 0 ∷ 0 ∷ 1 ∷ 0 ∷ 1 ∷ 0 ∷ 0 ∷ 0 ∷ 0 ∷ 5 ∷ 95 ∷ 104 ∷ 116 ∷ 116 ∷ 112 ∷ 4 ∷ 95
    ∷ 116 ∷ 99 ∷ 112 ∷ 5 ∷ 108 ∷ 111 ∷ 99 ∷ 97 ∷ 108 ∷ 0 ∷ 0 ∷ 12 ∷ 0 ∷ 1 ∷ 192 ∷ 12 ∷ 0 ∷ 12 ∷ 0
    ∷ 1 ∷ 0 ∷ 0 ∷ 0 ∷ 120 ∷ 0 ∷ 6 ∷ 3 ∷ 97 ∷ 32 ∷ 98 ∷ 192 ∷ 12 ∷ []

abbrev service : Text
service =
    95 ∷ 104 ∷ 116 ∷ 116 ∷ 112 ∷ 46 ∷ 95 ∷ 116 ∷ 99 ∷ 112 ∷ 46 ∷ 108 ∷ 111 ∷ 99 ∷ 97 ∷ 108 ∷ 46 ∷ []

abbrev read_packet : Message
read_packet = record {
  id = 0x1234;
  response = true;
  opcode = 0;
  authoritative = true;
  recursion_desired = false;
  checking_disabled = false;
  questions = record { name = service; kind = 12; class = 1 } ∷ [];
  answers =
      record {
        name = service;
        class = 1;
        ttl = 120;
        content = ptr (b'a' ∷ b'\\' ∷ b' ' ∷ b'b' ∷ b'.' ∷ service);
      }
      ∷ [];
  authority = [];
  additional = [];
}

parses : parse packet ≡ some read_packet
unfolding parse join
parses = refl

parse-bounds_example :
    (field packet 4 ≡ some (length read_packet.questions))
    × (field packet 6 ≡ some (length read_packet.answers))
    × (field packet 8 ≡ some (length read_packet.authority))
    × (field packet 10 ≡ some (length read_packet.additional))
    × (12
          + 5 * length read_packet.questions
          + 11
            * (length read_packet.answers
                + length read_packet.authority
                + length read_packet.additional)
        ≤ length packet)
parse-bounds_example = parse-bounds packet read_packet parses

-- The instance's name is written with its space, which the reader escapes.
abbrev written : Message
written = record read_packet {
  answers =
      record {
        name = service;
        class = 1;
        ttl = 120;
        content = ptr (b'a' ∷ b' ' ∷ b'b' ∷ b'.' ∷ service);
      }
      ∷ [];
}

packs : pack written true ≡ packet
unfolding pack split is_empty_text trim_end lookup insert text_eq join to_ascii_lowercase kind
packs = refl

parse-pack_header_example :
    (read_packet.id ≡ written.id)
    × (read_packet.response ≡ written.response)
    × (read_packet.opcode ≡ written.opcode % 16)
    × (read_packet.authoritative ≡ written.authoritative)
    × (read_packet.recursion_desired ≡ written.recursion_desired)
    × (read_packet.checking_disabled ≡ written.checking_disabled)
    × (length read_packet.questions ≡ min (length written.questions) 65535)
    × (length read_packet.answers ≡ min (length written.answers) 65535)
    × (length read_packet.authority ≡ min (length written.authority) 65535)
    × (length read_packet.additional ≡ min (length written.additional) 65535)
parse-pack_header_example =
    parse-pack_header written read_packet true (omega arith) (ap parse packs ∙ parses)
