-- ===== src/Client/Checker.antt =====
-- A round of `file_checker`, from the scan of the directory to the table of the tracker.
use mathlib.Core.Path.{subst}
use networks_dartsync.Base.{
  ℕ, suc, ◌<◌, ◌≡◌, refl, ap, ◌∙◌, List, [], ◌∷◌, true, false, ◌||◌, some, arith, leb, length, All,
  All-append, All-replicate, if_cases, ◌^◌, set, length-set, map, replicate, zero,
}
use networks_dartsync.Base.Bytes.{Bytes}
use networks_dartsync.FileTable.{FileNode, FileTable, zero_peers, max_peers, file_type, folder_type}
use networks_dartsync.FileTable.Peers.{has, has-append, length-zero_peers}
use networks_dartsync.FileTable.Sync.View.{find, find_view, synced, IsClientTable}
use networks_dartsync.LocalSync.{Monitor}
use networks_dartsync.Scan.{
  Entries, end, file, folder, other, visible, path, record_of, Directory, opened,
}
use networks_dartsync.Scan.Listed.{listed, Fits, any_newer}
use networks_dartsync.Scan.Names.{Tidy}
use networks_dartsync.Scan.Unique.{client_table, file_table_update-Refreshed}
use networks_dartsync.Wire.{Socket, closed}
use networks_dartsync.Wire.Exact.{IsPrompt}
use networks_dartsync.TableMessage.Layout.{IsWord, IsRecord}
use networks_dartsync.TableMessage.Receiving.{IsSendable}
use networks_dartsync.Tracker.{Tracker, Signal, from_sender, broadcast_file_table, handle_signal}
use networks_dartsync.Tracker.Holders.{Sound}
use networks_dartsync.Tracker.Reachable.{file_update-Takeover}
use networks_dartsync.Session.{Sending, file_update, send_all, update, hung_up, dialogue}
use networks_dartsync.Session.RoundTrip.{heard as heard_as, CanSend, dialogue-heard}
use networks_dartsync.Client.{check_files}

-- No name has a NUL, and no size is over an int of four bytes.
abbrev pub CanSay : Entries → Type 0
CanSay end = Unit
CanSay (file name mtime size rest) = (has 0 name ≡ false) × IsWord size × CanSay rest
CanSay (folder name mtime entries rest) = (has 0 name ≡ false) × CanSay entries × CanSay rest
CanSay (other name mtime rest) = (has 0 name ≡ false) × CanSay rest

-- The array of peers is not opened again, as it is long.
module _ (ip : ℕ) (small : IsWord ip) where
  set-IsWord : (n : ℕ) → All IsWord (set (replicate n 0) 0 ip)
  set-IsWord zero = tt
  set-IsWord (suc n) = (small, All-replicate IsWord 0 (omega arith) n)

  record_of-IsRecord :
      (name : Bytes) (mtime size type : ℕ)
      → has 0 name ≡ false
      → length name < 256
      → IsWord size
      → IsWord type
      → IsRecord (record_of ip name mtime size type)
  unfolding record_of zero_peers
  record_of-IsRecord name mtime size type plain short fits kind = record {
    size = fits;
    no_nul = plain;
    short = short;
    type = kind;
    timestamp = omega arith;
    num_peers = omega arith;
    peers_size = length-set zero_peers 0 ip ∙ length-zero_peers;
    peers = set-IsWord max_peers;
  }

  has-path :
      (directory name : Bytes)
      → has 0 directory ≡ false
      → has 0 name ≡ false
      → has 0 (path directory name) ≡ false
  unfolding has
  has-path directory name d n = ground (arith, has-append 0 directory (b'/' ∷ name))

  listed-IsRecord :
      (directory : Bytes) (entries : Entries)
      → has 0 directory ≡ false
      → Fits directory entries
      → CanSay entries
      → All IsRecord (listed ip directory entries)
  unfolding listed
  listed-IsRecord directory end d h c = tt
  listed-IsRecord directory (file name mtime size rest) d (short, fits, h) (plain, word, c) =
      let behind = listed-IsRecord directory rest d h c in
      if_cases (All IsRecord) (visible name)
        (
          record_of-IsRecord (path directory name) mtime size file_type
              (has-path directory name d plain) short word (omega arith),
          behind,
        )
        behind
  listed-IsRecord directory (folder name mtime entries rest) d (short, fits, hi, h) (plain, ci, c) =
      let behind = listed-IsRecord directory rest d h c in
      let whole = has-path directory name d plain in
      if_cases (All IsRecord) (visible name)
        (
          record_of-IsRecord (path directory name) mtime 0 folder_type whole short (omega arith)
              (omega arith),
          All-append _ _ _ (listed-IsRecord (path directory name) entries whole hi ci) behind,
        )
        behind
  listed-IsRecord directory (other name mtime rest) d (short, fits, h) (plain, c) =
      let behind = listed-IsRecord directory rest d h c in
      if_cases (All IsRecord) (visible name)
        (
          record_of-IsRecord (path directory name) mtime 0 0 (has-path directory name d plain) short
              (omega arith) (omega arith),
          behind,
        )
        behind

client_table-IsSendable :
    (ip : ℕ) (nodes : List FileNode)
    → IsWord ip
    → All IsRecord nodes
    → suc (length nodes) < 2 ^ 31
    → IsSendable (client_table ip nodes)
unfolding record_of has
client_table-IsSendable ip nodes small v few =
    let first =
      record_of-IsRecord ip small [] 0 0 0 refl (omega arith) (omega arith) (omega arith) in
    record {
      head = record {
        size = omega arith;
        no_nul = refl;
        short = omega arith;
        type = omega arith;
        timestamp = omega arith;
        num_peers = omega arith;
        peers_size = first.peers_size;
        peers = first.peers;
      };
      nodes = v;
      count = few;
    }

-- A directory whose table can be sent.
pub record CanWatch (ip : ℕ) (name : Bytes) (directory : Directory) : Type 0 where
  pub address : IsWord ip
  pub plain : has 0 name ≡ false
  pub fits : Fits name directory.entries
  pub tidy : Tidy directory.entries
  pub says : CanSay directory.entries
  pub few : suc (length (listed ip name directory.entries)) < 2 ^ 31

-- The way of a table from the directory to the tracker.
pub record Published (now ip : ℕ) (name : Bytes) (directory : Directory) (m : Monitor)
    (later : List Sending) (s : Socket) (t : Tracker) : Type 0 where
  pub monitor : Monitor
  pub after : FileTable
  pub sent :
      check_files now ip name (opened directory) m
      ≡ some (record { monitor = monitor; sending = file_update monitor.table ∷ [] })
  pub heard : dialogue ip s ≡ record {
    messages = update (some (from_sender ip monitor.table)) ∷ map (heard_as ip) later;
    how = hung_up;
  }
  pub taken :
      handle_signal ip (Signal.file_update (some (from_sender ip monitor.table))) t
      ≡ some (record t { files = after; sent = broadcast_file_table t.peers after t.sent })
  pub entries :
      (file_name : Bytes)
      → find_view file_name after.nodes
        ≡ synced ip
            (find file_name (listed ip name directory.entries))
            (find file_name t.files.nodes)

-- What changes in a client's directory reaches the tracker's table. Where updates are enabled and a
-- scan finds something newer in a directory whose records keep their layout, `file_checker` sends a
-- table. If that is the first thing on a connection whose calls of `recv` deliver an int at least, and
-- the client hangs up behind what else it can say, the tracker hears exactly the table; and behind
-- `handle_signal` a sound table of the tracker has under each name the combination of what the
-- directory has there and what the tracker had.
pub check_files-Published :
    (now ip : ℕ) (name : Bytes) (directory : Directory) (m : Monitor) (later : List Sending)
    (ips : List ℕ) (s : Socket) (t : Tracker)
    → m.update_enable ≡ true
    → now < 2 ^ 32
    → CanWatch ip name directory
    → (leb m.last_table_update_time directory.mtime
        || any_newer m.last_table_update_time (listed ip name directory.entries))
      ≡ true
    → All CanSend later
    → IsPrompt s
    → s.ending ≡ closed
    → s.bytes ≡ send_all (file_update (client_table ip (listed ip name directory.entries)) ∷ later)
    → Sound ips t
    → Published now ip name directory m later s t
unfolding check_files record_of from_sender
check_files-Published now ip name directory m later ips s t enabled small v newer ls prompt shut e
      sound =
    let nodes = listed ip name directory.entries in
    let (m', refreshed, r) =
      file_table_update-Refreshed now ip name directory m enabled small v.fits v.tidy in
    let rows = listed-IsRecord ip v.address name directory.entries v.plain v.fits v.says in
    let table = client_table ip nodes in
    let sendable = client_table-IsSendable ip nodes v.address rows v.few in
    let heard = dialogue-heard ip (file_update table ∷ later) s (sendable, ls) prompt shut e in
    let client : IsClientTable nodes = subst IsClientTable (ap (λ c. c.nodes) r.table) r.sound in
    let room : 0 < length (from_sender ip table).head.peers = omega (
      arith,
      length-set (set zero_peers 0 ip) 0 ip,
      length-set zero_peers 0 ip,
      length-zero_peers,
    ) in
    let (after, taken, took) =
      file_update-Takeover ip ips (from_sender ip table) t client room sound in
    record {
      monitor = m';
      after = after;
      sent = rw (check_files, refreshed, newer) refl;
      heard = rw r.table heard;
      taken = rw r.table taken;
      entries = took.entries;
    }
