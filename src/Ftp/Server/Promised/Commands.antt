-- ===== src/Ftp/Server/Promised/Commands.antt =====
-- `send_response` of tp3_ftp_multiclient_server/common_command.cpp keeps what a client is promised.
use programming_workshop.Common.{refl, Bytes, codes}
use programming_workshop.Sudoku.Socket.Send.{Accepting}
use programming_workshop.Ftp.Config.{ConfigMap}
use programming_workshop.Ftp.Connection.{Session}
use programming_workshop.Ftp.Command.{
  Command, user_command, pass_command, syst_command, list_command, help_command, pwd_command,
  mkd_command, rmd_command, quit_command, invalid_command,
}
use programming_workshop.Ftp.Server.{answer, send_list, send_mkd, send_rmd, send_response}
use programming_workshop.Ftp.Server.Promised.{
  one_answer, reserved, HasName, HasTexts, told_system, told_commands, told_directory, unknown,
  IsAnswered,
}
use programming_workshop.Ftp.Server.Promised.Login.{
  send_user-IsAnswered, send_pass-IsAnswered, send_quit-IsAnswered,
}
use programming_workshop.Ftp.Server.Promised.Folders.{
  send_list-IsAnswered, send_mkd-IsAnswered, send_rmd-IsAnswered,
}

-- If the configuration has the texts and no call of send() fails, then whatever the command and
-- whether or not the client has logged in, `send_response` returns, has sent the promised answer and
-- nothing else, and the client and the directories are as promised; a bare MKD or RMD only if it
-- does not succeed.
pub send_response-IsAnswered :
    (cfg : ConfigMap) (texts : Bytes → Bytes) (cmd : Command) (s : Session)
    → HasTexts cfg texts
    → Accepting s.outcomes
    → HasName s.directories cmd
    → IsAnswered texts cmd s (send_response cfg cmd s)
unfolding send_response
send_response-IsAnswered cfg texts (user_command arg) s t a n =
    send_user-IsAnswered cfg texts arg s t a
send_response-IsAnswered cfg texts (pass_command arg) s t a n =
    send_pass-IsAnswered cfg texts arg s t a
send_response-IsAnswered cfg texts syst_command s t a n =
    reserved cfg texts syst_command (answer cfg (codes "215") (codes "systemInfo")) s t a (tt {0})
      (λ l.
        one_answer cfg texts syst_command (codes "215") (codes "systemInfo") s t.system_info a _
          refl (told_system l))
send_response-IsAnswered cfg texts list_command s t a n =
    reserved cfg texts list_command (send_list cfg) s t a (tt {0})
      (send_list-IsAnswered cfg texts s t a)
send_response-IsAnswered cfg texts help_command s t a n =
    reserved cfg texts help_command (answer cfg (codes "214") (codes "commands")) s t a (tt {0})
      (λ l.
        one_answer cfg texts help_command (codes "214") (codes "commands") s t.commands a _ refl
          (told_commands l))
send_response-IsAnswered cfg texts pwd_command s t a n =
    reserved cfg texts pwd_command (answer cfg (codes "257") (codes "currentDirectoryMsg")) s t a
      (tt {0})
      (λ l.
        one_answer cfg texts pwd_command (codes "257") (codes "currentDirectoryMsg") s t.current a _
          refl (told_directory l))
send_response-IsAnswered cfg texts (mkd_command d) s t a n =
    reserved cfg texts (mkd_command d) (send_mkd cfg d) s t a (tt {0})
      (send_mkd-IsAnswered cfg texts d s t a n)
send_response-IsAnswered cfg texts (rmd_command d) s t a n =
    reserved cfg texts (rmd_command d) (send_rmd cfg d) s t a (tt {0})
      (send_rmd-IsAnswered cfg texts d s t a n)
send_response-IsAnswered cfg texts quit_command s t a n = send_quit-IsAnswered cfg texts s t a
send_response-IsAnswered cfg texts invalid_command s t a n =
    one_answer cfg texts invalid_command (codes "530") (codes "unknownCommand") s t.unknown a _ refl
      unknown
