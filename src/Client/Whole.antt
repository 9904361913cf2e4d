-- ===== src/Client/Whole.antt =====
-- The whole of what a client says to the tracker, from the first password to the end.
use networks_dartsync.Base.{List, [], ◌++◌, take, if◌then◌else◌}
use networks_dartsync.Base.Bytes.{Bytes}
use networks_dartsync.Tracker.{max_try}
use networks_dartsync.Tracker.Password.{guessed}
use networks_dartsync.Session.{Sending, send_all}
use networks_dartsync.Client.Agreement.{send_passwords, tried}

-- What a client sends: the passwords that it is asked for, and then, if one was right, what its
-- threads say.
abbrev pub said : Bytes → List Bytes → List Sending → Bytes
said password typed ms =
    send_passwords (tried password max_try typed)
    ++ (if guessed password (take max_try typed) then send_all ms else [])
