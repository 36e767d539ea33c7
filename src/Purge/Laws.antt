-- ===== src/Purge/Laws.antt =====
-- When a purge counts as verified.
use delta_forge_benchmarks.Common.{
  ◌≡◌, ◌↔◌, refl, sym, ◌∙◌, &&-split, &&-join, Bool, true, false, ◌&&◌, Option, none, some, List,
  [], ◌∷◌, arith, all,
}
use delta_forge_benchmarks.Common.Text.{Text}
use delta_forge_benchmarks.Purge.{
  verified, TmpEntry, file, directory, other, unreadable, clear_entries, clear_tmp, Sidecar,
  missing, failing, connected, receive, starts_with_ok, strip, trigger_dropcaches, socket_path,
  Surroundings, purge_for_cold_run,
}

-- A directory, or a socket or the like.
abbrev pub is_tolerated : TmpEntry → Bool
is_tolerated (file raises) = false
is_tolerated (directory stays) = true
is_tolerated other = true
is_tolerated unreadable = false

clear_entries-tolerated :
    (ok : Bool) (es : List TmpEntry)
    → let (after, left) = clear_entries ok es in after ≡ (ok && all is_tolerated left)
unfolding clear_entries
clear_entries-tolerated true [] = refl
clear_entries-tolerated false [] = refl
clear_entries-tolerated ok (file true ∷ es) = ground (arith, clear_entries-tolerated false es)
clear_entries-tolerated ok (file false ∷ es) = clear_entries-tolerated ok es
clear_entries-tolerated ok (directory true ∷ es) = clear_entries-tolerated ok es
clear_entries-tolerated ok (directory false ∷ es) = clear_entries-tolerated ok es
clear_entries-tolerated ok (other ∷ es) = clear_entries-tolerated ok es
clear_entries-tolerated ok (unreadable ∷ es) = ground (arith, clear_entries-tolerated false es)

-- The sidecar acknowledged: the socket was there, connecting did not fail, and what it sent begins, after
-- white space, with DROPCACHES_OK.
abbrev pub Acknowledged : Sidecar → Type 0
Acknowledged missing = ⊥
Acknowledged (failing message) = ⊥
Acknowledged (connected events) = starts_with_ok (strip (receive events)) ≡ true

trigger_dropcaches-Acknowledged :
    (path : Text) (s : Sidecar) → ((trigger_dropcaches path s).0 ≡ true) ↔ Acknowledged s
unfolding trigger_dropcaches
trigger_dropcaches-Acknowledged path missing = (λ h. cc, λ h. elim h [ ])
trigger_dropcaches-Acknowledged path (failing message) = (λ h. cc, λ h. elim h [ ])
trigger_dropcaches-Acknowledged path (connected events) = (λ h. h, λ h. h)

-- /tmp is a directory, and of its entries only tolerated ones are in `left`.
abbrev pub IsCleared : Option (List TmpEntry) → List TmpEntry → Type 0
IsCleared none left = ⊥
IsCleared (some es) left = all is_tolerated left ≡ true

clear_tmp-IsCleared :
    (tmp : Option (List TmpEntry))
    → let (ok, left) = clear_tmp tmp in (ok ≡ true) ↔ IsCleared tmp left
unfolding clear_tmp
clear_tmp-IsCleared none = (λ h. cc, λ h. elim h [ ])
clear_tmp-IsCleared (some es) =
    (λ h. sym (clear_entries-tolerated true es) ∙ h, λ h. clear_entries-tolerated true es ∙ h)

-- A purge is verified exactly when /tmp is a directory, all that is left in it afterwards are directories,
-- sockets, pipes and devices, and the sidecar on the chosen socket acknowledged. No file, link or unreadable
-- entry stays, but a directory that could not be removed, or a socket, may.
pub verified_iff :
    (os : Surroundings) (patterns : List Text) (socket : Option Text)
    → let (result, left) = purge_for_cold_run os patterns socket in
      (verified result ≡ true)
      ↔ (IsCleared os.tmp left × Acknowledged (os.sidecar (socket_path socket os.env)))
unfolding verified purge_for_cold_run
verified_iff os patterns socket =
    let path = socket_path socket os.env in
    let tmp = clear_tmp-IsCleared os.tmp in
    let ack = trigger_dropcaches-Acknowledged path (os.sidecar path) in
    (
      λ h. let (p, q) = &&-split _ _ h in (tmp.0 p, ack.0 q),
      λ (p, q). &&-join _ _ (tmp.1 p) (ack.1 q),
    )
