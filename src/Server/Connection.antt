-- ===== src/Server/Connection.antt =====
-- pkg/server/server.go: handleConnection. The bytes of `stream` arrive and then the client closes the
-- connection. Each round reads nine bytes at least, so fuel above the length of the stream is enough.
use tumbleweed.Base.{ℕ, zero, suc, List, Error, Result, ok, err, eof, blocked}
use tumbleweed.Protocol.Frame.{Frame, Writer, read_frame, write_frame}
use tumbleweed.Server.{Broker, process_frame}

-- How a connection ends: the client closed it, a read or a write failed, or a request did not return.
pub data End : Type 0 where
  disconnected : End
  read_failed : Error → End
  write_failed : Error → End
  stuck : Error → End

module _ {S : Type 0} (text : Error → List ℕ) (b : Broker S) (unknown_text : List ℕ) where
  abbrev pub written :
      (S → Writer → S × Writer × End) → S → Writer × Result (Unit {0}) → S × Writer × End
  written next s (w, err e) = (s, w, write_failed e)
  written next s (w, ok _) = next s w

  abbrev pub answered :
      (S → Writer → S × Writer × End) → Writer → S × Result Frame → S × Writer × End
  answered next w (s, err e) = (s, w, stuck e)
  answered next w (s, ok resp) = written next s (write_frame w resp)

  abbrev pub handle_read :
      (S → Writer → List ℕ → S × Writer × End)
      → S
      → Writer
      → Result (Frame × List ℕ)
      → S × Writer × End
  handle_read next s w (err eof) = (s, w, disconnected)
  handle_read next s w (err e) = (s, w, read_failed e)
  handle_read next s w (ok (f, rest)) =
      answered (λ s' w'. next s' w' rest) w (process_frame text b unknown_text s f)

  unfoldable pub handle_connection : ℕ → S → Writer → List ℕ → S × Writer × End
  handle_connection zero s w stream = (s, w, stuck blocked)
  handle_connection (suc fuel) s w stream =
      handle_read (handle_connection fuel) s w (read_frame stream)
