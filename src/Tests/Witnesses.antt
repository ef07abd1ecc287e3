-- ===== src/Tests/Witnesses.antt =====
-- The theorems at concrete inputs.
use ftpii.Base.{◌+◌, decimal, ◌++◌, ◌≡◌, refl, [], ◌∷◌, arith, codes, equal, length, All, ◌≤◌}
use ftpii.Os.{val}
use ftpii.World.Triple.{Ensures}
use ftpii.Net.Transfer.{Delivers, send_exact-Delivers}
use ftpii.Net.{send_exact}
use ftpii.Path.Components.{render, resolve}
use ftpii.Path.Correct.{IsText, normalise-render}
use ftpii.Path.Normal.{IsPlain, dir_path, length-normalise, normalise_idem}
use ftpii.Path.{normalise}
use ftpii.Vrt.Cwd.{IsCwd, NoPath, TooLong, target, virtual_abspath-Absolute, to_real_path-Real}
use ftpii.Vrt.Resolve.{Real}
use ftpii.Vrt.Memory.{Answers}
use ftpii.Vrt.{virtual_abspath, to_real_path}
use ftpii.Ftp.Split.{split}
use ftpii.Ftp.Split.Fields.{fields}
use ftpii.Ftp.Split.Correct.{split-fields}
use ftpii.Ftp.Session.{Serves}
use ftpii.Ftp.Dispatch.{process_command}
use ftpii.Ftp.Dispatch.Guard.{first, second, is_login, process_command-Guarded}
use ftpii.Vrt.Verdict.{Verdict, is_some}
use ftpii.Vrt.Chdir.{Landed, vrt_chdir-Landed}
use ftpii.Vrt.{vrt_chdir}
use ftpii.Ftp.Data.{passive_reply}
use ftpii.Ftp.Data.Passive.{length-passive_reply}
use ftpii.Ftp.Reply.{write_reply}
use ftpii.Ftp.Reply.Line.{write_reply-Delivers}
use ftpii.Ftp.Dispatch.{
  find_command, site_commands, site_handlers, unauthenticated_commands, unauthenticated_handlers,
  authenticated_commands, authenticated_handlers,
}
use ftpii.Ftp.Dispatch.Tables.{InBounds, dispatch-InBounds}
use ftpii.Tests.{no_stat, sample_os, sample_world, guest}

normalise-render_example :
    normalise (b'/' ∷ codes "a/../b//.") ≡ render (resolve (codes "a/../b//."))
normalise-render_example = normalise-render (codes "a/../b//.") (ground arith)

length-normalise_example :
    length (normalise (b'/' ∷ codes "a/../b")) ≤ length (b'/' ∷ codes "a/../b")
length-normalise_example = length-normalise (codes "a/../b") (ground arith)

normalise_idem_example :
    normalise (normalise (b'/' ∷ codes "a/../b")) ≡ normalise (b'/' ∷ codes "a/../b")
normalise_idem_example = normalise_idem (codes "a/../b") (ground arith)

sd-IsPlain : All IsPlain (codes "sd" ∷ [])
sd-IsPlain = (
  record {
    is_name = ground arith;
    ne_nil = unfold equal in refl;
    ne_dot = unfold equal in refl;
    ne_dotdot = unfold equal in refl;
  },
  tt,
)

sd-IsText : All IsText (codes "sd" ∷ [])
sd-IsText = (ground arith, tt)

unfoldable sd-IsCwd : IsCwd (codes "/sd/")
sd-IsCwd = record { at = codes "sd" ∷ []; plain = sd-IsPlain; text = sd-IsText; is_path = refl }

send_exact-Delivers_example :
    Ensures
      (send_exact ⦃os = sample_os⦄ (val 3) (codes "220 Hi") sample_world)
      (Delivers (val 3) (codes "220 Hi") sample_world)
send_exact-Delivers_example =
    send_exact-Delivers ⦃os = sample_os⦄ (val 3) (codes "220 Hi") sample_world

virtual_abspath-Absolute_example :
    Ensures
      (virtual_abspath ⦃os = sample_os⦄
        (dir_path (codes "sd" ∷ []))
        (codes "../usb/x")
        sample_world)
      (λ r w'.
        Answers sample_world w'
          (λ s. s ≡ render (target (codes "sd" ∷ []) (codes "../usb/x")))
          (TooLong ⦃os = sample_os⦄ (dir_path (codes "sd" ∷ [])) (codes "../usb/x"))
          r)
virtual_abspath-Absolute_example =
    virtual_abspath-Absolute ⦃os = sample_os⦄ (codes "sd" ∷ []) (codes "../usb/x") sample_world
      sd-IsPlain sd-IsText (ground arith)

to_real_path-Real_example :
    let at = target (codes "sd" ∷ []) (codes "../USB/x") in
    Ensures (to_real_path ⦃os = sample_os⦄ (codes "/sd/") (codes "../USB/x") sample_world) (λ r w'.
      Answers sample_world w'
        (Real ⦃os = sample_os⦄ at)
        (NoPath ⦃os = sample_os⦄ (codes "/sd/") (codes "../USB/x") at)
        r)
unfolding sd-IsCwd
to_real_path-Real_example =
    to_real_path-Real ⦃os = sample_os⦄ (codes "/sd/") (codes "../USB/x") sample_world sd-IsCwd
      (ground arith)

split-fields_example :
    split (codes "  MOUNT  sd card ") b' ' 1 ≡ fields b' ' 1 (codes "  MOUNT  sd card ")
split-fields_example = split-fields (codes "  MOUNT  sd card ") b' ' 1

process_command-Guarded_example :
    Ensures (process_command ⦃os = sample_os⦄ 10 1 (codes "pass wii") sample_world) (λ _ w'.
      Serves 1 sample_world w' (λ d.
        d.authenticated
        ≡ is_login sample_world.ftp.password
            (first (codes "pass wii"))
            (second (codes "pass wii"))))
process_command-Guarded_example =
    process_command-Guarded ⦃os = sample_os⦄ 10 (codes "pass wii") 1 guest sample_world refl refl

vrt_chdir-Landed_example :
    let at = target (codes "sd" ∷ []) (codes "..") in
    Ensures (vrt_chdir ⦃os = sample_os⦄ (codes "/sd/") (codes "..") no_stat sample_world) (λ r w'.
      Verdict sample_world w' (NoPath ⦃os = sample_os⦄ (codes "/sd/") (codes "..") at) (is_some r)
      × Landed ⦃os = sample_os⦄ at r)
unfolding sd-IsCwd
vrt_chdir-Landed_example =
    vrt_chdir-Landed ⦃os = sample_os⦄ (codes "/sd/") (codes "..") no_stat sample_world sd-IsCwd
      (ground arith)

write_reply-Delivers_example :
    Ensures
      (write_reply ⦃os = sample_os⦄ 1 220 (codes "Hi") sample_world)
      (Delivers (val 3) (decimal 220 ++ (b' ' ∷ (codes "Hi" ++ b'\r' ∷ b'\n' ∷ []))) sample_world)
write_reply-Delivers_example =
    write_reply-Delivers ⦃os = sample_os⦄ 1 220 (codes "Hi") guest sample_world refl (omega arith)
      (omega arith)

dispatch-InBounds_example :
    InBounds
      (unauthenticated_handlers ⦃os = sample_os⦄)
      (find_command (codes "list") unauthenticated_commands)
    × InBounds
        (authenticated_handlers ⦃os = sample_os⦄ 10)
        (find_command (codes "list") authenticated_commands)
    × InBounds (site_handlers ⦃os = sample_os⦄ 10) (find_command (codes "list") site_commands)
dispatch-InBounds_example = dispatch-InBounds ⦃os = sample_os⦄ (codes "list") 10

length-passive_reply_example : length (passive_reply 0xC0A80107 1024) + 1 ≤ 49
length-passive_reply_example = length-passive_reply 0xC0A80107 1024
