-- ===== src/Examples/Sessions.antt =====
-- The theorems on shell sessions from end to end and on the command line client's statuses, at
-- concrete inputs.
use cage.Common.{ℕ, suc, List, [], ◌∷◌, ◌≡◌, refl, none, some, true, arith}
use cage.Common.Exec.{msg, ok, err, pure}
use cage.Api.Shell.{Event, binary, arrives, outputs, Session, bridge}
use cage.Cli.Commands.{Files, Texts, execute, exec}
use cage.Cli.Shell.{
  Local, Socket, stdin, resized, play, resize_message, session, write_resize_message,
}
use cage.Cli.Remote.{GoesOn, session-handle_shell_conn}
use cage.Cli.Typing.{frames}
use cage.Common.Io.{read_full}
use cage.Firecracker.Frames
use cage.Firecracker.Frames.{Writer}
use cage.Firecracker.Shell.{Link, firecracker_shell}
use cage.Guest.{handle_shell_conn}
use cage.Guest.Output.{PtyRead, pump}
use cage.Guest.Screen.{read_all, pump-read_all}
use cage.Sdk
use cage.Sdk.{Client, ExecResult, Transport}

abbrev connection : Writer
connection = record { bytes = []; outage = λ n. none; writes = 0 }

-- Two reads with output, one without, and the end of the shell with its last byte.
abbrev reads : List PtyRead
reads = (104 ∷ 105 ∷ [], none) ∷ ([], none) ∷ (10 ∷ [], none) ∷ (36 ∷ [], some (msg "EIO")) ∷ []

pump-read_all_example :
    read_all 5 4096 (record { bytes = (pump reads connection).bytes; failure = none })
    ≡ some (104 ∷ 105 ∷ 10 ∷ 36 ∷ [])
pump-read_all_example =
    pump-read_all 5 4096 reads connection none
      (omega arith, (omega arith, (omega arith, (omega arith, tt)))) (omega arith) (λ n. refl) refl
      (omega arith)

abbrev locals : List Local
locals =
    stdin (108 ∷ []) none
    ∷ resized (ok (80, 24))
    ∷ stdin (115 ∷ 10 ∷ []) none
    ∷ stdin [] (some (msg "EOF"))
    ∷ stdin (120 ∷ []) none
    ∷ []

abbrev socket : Socket
socket = record { sent = []; outage = λ n. none; writes = 0 }

abbrev size_frame : Event
size_frame = arrives (resize_message 80 24)

abbrev found : List Event
found =
    size_frame
    ∷ arrives (binary (108 ∷ []))
    ∷ outputs true
    ∷ size_frame
    ∷ arrives (binary (115 ∷ 10 ∷ []))
    ∷ []

delivered : frames found ≡ (session (ok (80, 24)) locals socket).sent
unfolding session play write_resize_message
delivered = refl

-- A connection on which the guest has sent one byte of output.
abbrev link : Link
link = record {
  writer = connection;
  reader = record { bytes = 1 ∷ 0 ∷ 0 ∷ 0 ∷ 1 ∷ 36 ∷ []; failure = none };
}

abbrev opened : Session Link
opened = record { backend = link; sent = [] }

goes_on : GoesOn (pure tt) found opened
unfolding Frames.read Frames.read_frame Frames.write_input Frames.write_frame Frames.resize
    read_full
goes_on = (refl, (refl, (refl, (refl, (refl, tt)))))

session-handle_shell_conn_example :
    handle_shell_conn (record {
      bytes = (bridge (firecracker_shell (pure tt)) found opened).backend.writer.bytes;
      failure = none;
    })
    ≡ some (record { input = 108 ∷ 115 ∷ 10 ∷ []; size = some (80, 24) })
session-handle_shell_conn_example =
    session-handle_shell_conn (pure tt) (ok (80, 24)) locals socket found opened none
      (omega arith, (tt, (omega arith, (omega arith, (omega arith, tt))))) (λ n. refl) refl
      (λ n. refl) refl delivered goes_on

-- A server that runs every command to its end.
abbrev obliging : Transport ℕ
obliging = record {
  exchange = λ req n. (ok (record { status_code = 200; body = "done" }), suc n);
  sandbox = λ body. err (msg "no sandbox");
  sandboxes = λ body. ok [];
  templates = λ body. ok [];
  exec_result = λ body. ok (record { stdout = body; stderr = ""; exit_code = 0 });
}

abbrev no_files : Files ℕ
no_files = record {
  read_file = λ path p. (err (msg "no file"), p);
  write_file = λ path content p. (ok tt, suc p);
}

abbrev plain : Texts
plain = record { describe = λ e. "error"; rfc3339 = λ t. t; tabulate = λ rows. "" }

runs :
    (execute obliging no_files plain "http://cage" "cage_1"
      (exec obliging no_files plain "http://cage" "cage_1" "u1" ("ls" ∷ []))
      (0, 0)).0.exit_code
    ≡ 0
unfolding execute exec Sdk.exec Sdk.do_request
runs = refl
