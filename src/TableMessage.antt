-- ===== src/TableMessage.antt =====
-- The messages that carry a file table, utils/file_monitor.c: `send_file_table` and
-- `recv_file_table`. A record is sent as it lies in memory, without the pointer at its end; the
-- first message is the number of records.
pub mod Layout
pub mod Receiving
pub mod Looping
pub mod Sample
mod Tests
use networks_dartsync.Base.{
  ℕ, zero, suc, ◌+◌, ◌-◌, ◌%◌, List, [], ◌∷◌, ◌++◌, Bool, true, false, Option, none, some, ◌==◌,
  ltb, set, if◌then◌else◌, length, take, drop, replicate, map, flatten,
}
use networks_dartsync.Base.Bytes.{Bytes}
use networks_dartsync.FileTable.{FileNode, FileTable, max_peers}
use networks_dartsync.Wire.{
  Ending, closed, broken, silent, Socket, Recv, received, ended, recv, Reading, got, lost,
  exhausted, recv_exact, to_bytes, from_bytes,
}

-- `sizeof(int)`, the array `name`, and `sizeof(file_node) - sizeof(struct node *)`.
abbrev pub int_size : ℕ
int_size = 4

abbrev pub name_room : ℕ
name_room = 256

abbrev pub record_size : ℕ
record_size = 1072

-- The array `name`, filled up with NUL.
abbrev pub padded : Bytes → Bytes
padded name = name ++ replicate (name_room - length name) 0

-- The string in an array.
unfoldable pub c_string : Bytes → Bytes
c_string [] = []
c_string (c ∷ s) = if c == 0 then [] else c ∷ c_string s

unfoldable pub words_of : List ℕ → Bytes
words_of [] = []
words_of (p ∷ ps) = to_bytes int_size p ++ words_of ps

unfoldable pub words : ℕ → Bytes → List ℕ
words zero s = []
words (suc n) s = from_bytes (take int_size s) ∷ words n (drop int_size s)

-- A record in memory.
unfoldable pub encode_node : FileNode → Bytes
encode_node s =
    to_bytes int_size s.size
    ++ (padded s.name
        ++ (to_bytes int_size s.type
            ++ (to_bytes int_size s.timestamp
                ++ (to_bytes int_size s.num_peers ++ words_of s.peers))))

unfoldable pub decode_node : Bytes → FileNode
decode_node s =
    let s1 = drop int_size s in
    let s2 = drop name_room s1 in
    let s3 = drop int_size s2 in
    let s4 = drop int_size s3 in
    let s5 = drop int_size s4 in
    record {
      size = from_bytes (take int_size s);
      name = c_string (take name_room s1);
      type = from_bytes (take int_size s2);
      timestamp = from_bytes (take int_size s3);
      num_peers = from_bytes (take int_size s4);
      peers = words max_peers s5;
    }

unfoldable pub encode_nodes : List FileNode → Bytes
encode_nodes [] = []
encode_nodes (s ∷ nodes) = encode_node s ++ encode_nodes nodes

-- All that is sent, where every `send` succeeds.
unfoldable pub send_file_table : FileTable → Bytes
send_file_table table =
    to_bytes int_size (suc (length table.nodes))
    ++ (encode_node table.head ++ encode_nodes table.nodes)

-- The records that have been read and the connection behind them, or the end of the connection within a record.
pub data Records : Type 0 where
  records : List FileNode → Socket → Records
  cut_off : Ending → Records
  no_fuel : Records

unfoldable pub recv_records : ℕ → Socket → Records
recv_records zero s = records [] s
recv_records (suc n) s = elim (recv_exact record_size s) [
  | lost e ↦ cut_off e
  | exhausted ↦ no_fuel
  | got bytes s' ↦ elim (recv_records n s') [
    | records nodes s2 ↦ records (decode_node bytes ∷ nodes) s2
    | cut_off e ↦ cut_off e
    | no_fuel ↦ no_fuel
  ]
]

-- How `recv_file_table` ends: with a table or `NULL`, and the connection behind it; in `recv` for ever; in a loop in which `recv`
-- returns 0 for ever, since the loop is left for a negative result only; or with a count of which
-- not all bytes have been read.
pub data Outcome : Type 0 where
  table : Option FileTable → Socket → Outcome
  blocked : Outcome
  spinning : Outcome
  undefined : Outcome
  no_fuel : Outcome

abbrev pub on_cut : Ending → Outcome
on_cut closed = spinning
on_cut broken = table none (record { bytes = []; cuts = []; ending = broken })
on_cut silent = blocked

-- The first node gets the sender's address.
abbrev pub first_of : ℕ → List FileNode → Option FileTable
first_of ip [] = none
first_of ip (s ∷ nodes) =
    some (record { head = record s { peers = set s.peers 0 ip }; nodes = nodes })

abbrev pub outcome : ℕ → Records → Outcome
outcome ip (records nodes s) = table (first_of ip nodes) s
outcome ip (cut_off e) = on_cut e
outcome ip Records.no_fuel = Outcome.no_fuel

-- The count is read by one call of `recv`; counts from 2 ^ 31 on are negative, and not counted.
abbrev pub signed_count : ℕ → ℕ
signed_count n = if ltb n 2147483648 then n else 0

unfoldable pub recv_file_table : ℕ → Socket → Outcome
recv_file_table ip s = elim (recv int_size s) [
  | ended silent ↦ blocked
  | ended closed ↦ table none s
  | ended broken ↦ table none s
  | received part s' ↦
      if length part == int_size
      then outcome ip (recv_records (signed_count (from_bytes part)) s')
      else undefined
]
