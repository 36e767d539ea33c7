-- ===== src/Purge.antt =====
-- The cold-run purge (engines/_purge.py). What the operating system answers is an argument: the result
-- of each `pkill`, the entries of /tmp, and what the socket of the sidecar gives.
pub mod Laws
use delta_forge_benchmarks.Common.{
  ℕ, Bool, true, false, ◌&&◌, Option, none, some, List, [], ◌∷◌, ◌++◌, map, leb, if◌then◌else◌,
  ◌==◌, ◌||◌, nat_eq, list_eq,
}
use delta_forge_benchmarks.Common.Text.{Text, codes, show, strip_prefix}

pub record PurgeResult : Type 0 where
  pub processes_killed : List Text
  pub tmp_cleared : Bool
  pub dropcaches_ok : Bool
  pub dropcaches_message : Text
  pub duration_ms : ℕ

unfoldable pub verified : PurgeResult → Bool
verified r = r.tmp_cleared && r.dropcaches_ok

-- How one `pkill -f pattern` ended; a negative return code is that of a signal.
pub data PkillRun : Type 0 where
  exited : ℕ → Text → PkillRun
  signalled : ℕ → Text → PkillRun
  raised : Text → PkillRun

abbrev pub is_white : ℕ → Bool
is_white c = (leb 9 c && leb c 13) || (leb 28 c && leb c 32)

-- `s.strip()`
unfoldable pub lstrip : Text → Text
lstrip [] = []
lstrip (c ∷ s) = let rest = lstrip s in if is_white c then rest else c ∷ s

unfoldable pub rstrip : Text → Text
rstrip [] = []
rstrip (c ∷ s) = let rest = rstrip s in if is_white c && rest == [] then [] else c ∷ rest

unfoldable pub strip : Text → Text
unfolding lstrip rstrip
strip s = rstrip (lstrip s)

unfoldable pub pkill_line : Text → PkillRun → Text
unfolding strip
pkill_line pat (exited rc stderr) =
    if rc == 0 || rc == 1
    then pat ++ codes ":rc=" ++ show rc
    else pat ++ codes ":rc=" ++ show rc ++ codes ":err=" ++ strip stderr
pkill_line pat (signalled n stderr) =
    pat ++ codes ":rc=-" ++ show n ++ codes ":err=" ++ strip stderr
pkill_line pat (raised message) = pat ++ codes ":exception=" ++ message

unfoldable pub pkill : (Text → PkillRun) → List Text → List Text
unfolding pkill_line
pkill run patterns = map (λ pat. pkill_line pat (run pat)) patterns

-- An entry of /tmp: a file or symbolic link with whether its removal raises, a directory with whether
-- `rmtree`, whose errors are ignored, leaves something of it, a socket or the like, or an entry whose
-- inspection raises.
pub data TmpEntry : Type 0 where
  file : Bool → TmpEntry
  directory : Bool → TmpEntry
  other : TmpEntry
  unreadable : TmpEntry

-- One round of the loop over the entries: `ok`, and what stays of the entry.
unfoldable pub clear_entry : Bool → TmpEntry → Bool × List TmpEntry
clear_entry ok (file true) = (false, file true ∷ [])
clear_entry ok (file false) = (ok, [])
clear_entry ok (directory true) = (ok, directory true ∷ [])
clear_entry ok (directory false) = (ok, [])
clear_entry ok other = (ok, other ∷ [])
clear_entry ok unreadable = (false, unreadable ∷ [])

unfoldable pub clear_entries : Bool → List TmpEntry → Bool × List TmpEntry
unfolding clear_entry
clear_entries ok [] = (ok, [])
clear_entries ok (e ∷ es) =
    let (now, left) = clear_entry ok e in
    let (after, later) = clear_entries now es in (after, left ++ later)

-- The result, and what /tmp holds afterwards; `none` when it is no directory.
unfoldable pub clear_tmp : Option (List TmpEntry) → Bool × List TmpEntry
unfolding clear_entries
clear_tmp none = (false, [])
clear_tmp (some entries) = clear_entries true entries

-- What a `recv` gives. The list of them ends where the peer has closed.
pub data Recv : Type 0 where
  chunk : Text → Recv
  timeout : Recv

-- The socket: absent, failing with an `OSError`, or connected.
pub data Sidecar : Type 0 where
  missing : Sidecar
  failing : Text → Sidecar
  connected : List Recv → Sidecar

-- `b"".join(chunks)`; an empty chunk or a timeout ends the loop.
unfoldable pub receive : List Recv → Text
receive [] = []
receive (timeout ∷ rest) = []
receive (chunk [] ∷ rest) = []
receive (chunk (c ∷ s) ∷ rest) = (c ∷ s) ++ receive rest

abbrev pub acknowledgement : Text
acknowledgement = codes "DROPCACHES_OK"

unfoldable pub starts_with_ok : Text → Bool
starts_with_ok reply = elim (strip_prefix acknowledgement reply) [ none ↦ false | some _ ↦ true ]

unfoldable pub reply_or : Text → Text
reply_or [] = codes "no reply"
reply_or (c ∷ s) = c ∷ s

unfoldable pub trigger_dropcaches : Text → Sidecar → Bool × Text
trigger_dropcaches path missing = (false, codes "socket missing: " ++ path)
trigger_dropcaches path (failing message) = (false, codes "connect failed: " ++ message)
trigger_dropcaches path (connected events) =
    let reply = strip (receive events) in (starts_with_ok reply, reply_or reply)

-- `dropcaches_socket or os.environ.get("DROPCACHES_TRIGGER", DEFAULT_DROPCACHES_SOCKET)`; an empty
-- argument counts as absent, an empty variable does not.
unfoldable pub socket_path : Option Text → Option Text → Text
socket_path (some (c ∷ s)) env = c ∷ s
socket_path (some []) none = codes "/run/dropcaches.sock"
socket_path (some []) (some s) = s
socket_path none none = codes "/run/dropcaches.sock"
socket_path none (some s) = s

pub record Surroundings : Type 0 where
  pub run_pkill : Text → PkillRun
  pub tmp : Option (List TmpEntry)
  pub env : Option Text
  pub sidecar : Text → Sidecar
  pub elapsed : ℕ

-- The result, and what /tmp holds afterwards.
unfoldable pub purge_for_cold_run :
    Surroundings → List Text → Option Text → PurgeResult × List TmpEntry
purge_for_cold_run os patterns dropcaches_socket =
    let path = socket_path dropcaches_socket os.env in
    let (cleared, left) = clear_tmp os.tmp in
    let (ok, message) = trigger_dropcaches path (os.sidecar path) in
    (
      record {
        processes_killed = pkill os.run_pkill patterns;
        tmp_cleared = cleared;
        dropcaches_ok = ok;
        dropcaches_message = message;
        duration_ms = os.elapsed;
      },
      left,
    )
