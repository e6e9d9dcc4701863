-- ===== src/Ftp/Server/Loop.antt =====
-- One round of the loop of `respond_client` in tp3_ftp_multiclient_server/common_server.cpp, and its end.
use programming_workshop.Common.{ℕ, zero, suc, ◌≡◌, refl, ap, true, false, if◌then◌else◌, Bytes}
use programming_workshop.Ftp.Result.{returned, Act, continue, ◌>>=◌}
use programming_workshop.Ftp.Config.{ConfigMap}
use programming_workshop.Ftp.Connection.{Session, receive_string}
use programming_workshop.Ftp.Server.{handle, client_loop}

-- What is done behind the reception of a line.
abbrev pub round : ℕ → ℕ → ConfigMap → Bytes → Act Session Unit
round fuel limit cfg client_query = do _ ← handle cfg client_query; client_loop fuel limit cfg

pub client_loop-round :
    (fuel limit : ℕ) (cfg : ConfigMap) (s : Session)
    → s.client.quit ≡ false
    → client_loop (suc fuel) limit cfg s ≡ continue (round fuel limit cfg) (receive_string limit s)
unfolding client_loop
client_loop-round fuel limit cfg s h =
    ap (λ b. if b then returned tt s else continue (round fuel limit cfg) (receive_string limit s))
      h

pub client_loop-quit :
    (fuel limit : ℕ) (cfg : ConfigMap) (s : Session)
    → s.client.quit ≡ true
    → client_loop fuel limit cfg s ≡ returned tt s
unfolding client_loop
client_loop-quit zero limit cfg s h = rw h refl
client_loop-quit (suc fuel) limit cfg s h = rw h refl
