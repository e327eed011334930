-- ===== src/Firecracker/Booted.antt =====
-- The requests that a boot makes, and their answers.
use zeptocapsule.Common.{
  All, some, ◌∙◌, ap, ℕ, zero, suc, List, [], ◌∷◌, ◌++◌, map, ◌≡◌, refl, sym, append-nil,
  append_assoc, by_bool,
}
use zeptocapsule.Common.Result.{Result, ok, err, by_result}
use zeptocapsule.Common.Program.{lift, Every, Every->>=, Every_mono, ◌>>=◌, ◌>>◌}
use zeptocapsule.Text.{Str, codes}
use zeptocapsule.Text.Utf8.{from_utf8}
use zeptocapsule.Capsule.Backend.{KernelError}
use zeptocapsule.Firecracker.System.{Exchange}
use zeptocapsule.Firecracker.Accepted.{IsAccepted, put_expect_ok-IsAccepted}
use zeptocapsule.Firecracker.Api.{put_expect_ok, ApiResponse, Texts}
use zeptocapsule.Firecracker.Machine.{Machine, see}
use zeptocapsule.Firecracker.Balanced.{Stays, Quiet}
use zeptocapsule.Firecracker.Boot.{
  finish, request_of, put_all, blocking_vsock_connect, wait_for_socket, Config, puts, boot,
}
use zeptocapsule.Firecracker.Ready.{
  heard_line, Heard, Ready, blocking_vsock_connect-Heard, finish-Ready, said_ready,
}

wait_for_socket-Quiet : (rounds : ℕ) (path : Str) → Quiet (wait_for_socket rounds path)
unfolding wait_for_socket see
wait_for_socket-Quiet zero path m = refl
wait_for_socket-Quiet (suc rounds) path m =
    by_bool _ refl (by_bool _ refl (λ _. wait_for_socket-Quiet rounds path m))

abbrev pub sent_to : Str → List (Str × Str) → List (Str × Str)
sent_to socket ps = map (λ p. (socket, request_of p)) ps

abbrev pub asked : Str → List (Str × Str) → List Exchange → Machine → Machine
asked socket ps answers m = record m {
  requests = m.requests ++ sent_to socket ps;
  answers = m.answers ++ answers;
}

-- The requests were made, and each was accepted.
abbrev Put : Str → List (Str × Str) → Machine → Machine → Result KernelError (Unit {0}) → Type 0
Put socket ps m v (ok _) =
    (answers : List Exchange) × (v ≡ asked socket ps answers m) × All IsAccepted answers
Put socket ps m v (err e) = v.vm ≡ m.vm

abbrev with_asked : Machine → List (Str × Str) → List Exchange → Machine
with_asked m requests answers = record m { requests = requests; answers = answers }

asked_nothing : (socket : Str) (m : Machine) → m ≡ asked socket [] [] m
asked_nothing socket m =
    ap (λ rs. with_asked m rs m.answers) (sym (append-nil m.requests))
    ∙ ap (λ xs. with_asked m (m.requests ++ []) xs) (sym (append-nil m.answers))

asked_cons :
    (socket : Str) (p : Str × Str) (ps : List (Str × Str)) (x : Exchange) (xs : List Exchange)
    (m : Machine)
    → asked socket ps xs (asked socket (p ∷ []) (x ∷ []) m) ≡ asked socket (p ∷ ps) (x ∷ xs) m
asked_cons socket p ps x xs m =
    let now = (socket, request_of p) ∷ [] in
    ap (λ rs. with_asked m rs (m.answers ++ x ∷ [] ++ xs))
      (append_assoc m.requests now (sent_to socket ps))
    ∙ ap (λ xs. with_asked m (m.requests ++ sent_to socket (p ∷ ps)) xs)
        (append_assoc m.answers (x ∷ []) xs)

-- The requests are made in order, up to the first that fails.
put_all-Put :
    (texts : Texts) (socket : Str) (ps : List (Str × Str)) (m : Machine)
    → Every see m (put_all texts socket ps) (Put socket ps m)
unfolding put_all see
put_all-Put texts socket [] m = ([], asked_nothing socket m, tt)
put_all-Put texts socket ((path, body) ∷ ps) m = λ x.
    let next = asked socket ((path, body) ∷ []) (x ∷ []) m in
    by_result
      (λ (r : Result KernelError ApiResponse).
        ((resp : ApiResponse) → r ≡ ok resp → IsAccepted x)
        → Every see next (lift r >> put_all texts socket ps) (Put socket ((path, body) ∷ ps) m))
      (λ resp accepts.
        Every_mono see next (put_all texts socket ps) (Put socket ps next)
          (Put socket ((path, body) ∷ ps) m) (put_all-Put texts socket ps next)
          (λ v r.
            by_result (λ r. Put socket ps next v r → Put socket ((path, body) ∷ ps) m v r)
              (λ _ (xs, e, all).
                (x ∷ xs, e ∙ asked_cons socket (path, body) ps x xs m, (accepts resp refl, all)))
              (λ _ e. e) r))
      (λ _ _. refl) (put_expect_ok texts path x) (put_expect_ok-IsAccepted texts path x)

-- What a boot leaves: requests that were all accepted, and a line that says "READY".
abbrev pub Asked :
    Str → List (Str × Str) → Machine → Machine → Result KernelError (Unit {0}) → Type 0
Asked socket ps m v (ok _) =
    (v.vm ≡ m.vm)
    × (v.requests ≡ m.requests ++ sent_to socket ps)
    × ((answers : List Exchange) × (v.answers ≡ m.answers ++ answers) × All IsAccepted answers)
    × (from_utf8 v.heard ≡ some (codes "READY"))
Asked socket ps m v (err e) = v.vm ≡ m.vm

-- behind the requests
rest_of_boot-Asked :
    (texts : Texts) (api_socket vsock_socket : Str) (ps : List (Str × Str)) (m : Machine)
    (answers : List Exchange)
    → All IsAccepted answers
    → Every see
        (asked api_socket ps answers m)
        (wait_for_socket 101 vsock_socket >> (blocking_vsock_connect texts vsock_socket >>= finish))
        (Asked api_socket ps m)
rest_of_boot-Asked texts api_socket vsock_socket ps m answers accepted =
    let v = asked api_socket ps answers m in
    Every->>= see v (wait_for_socket 101 vsock_socket) _ (Stays v) (Asked api_socket ps m)
      (wait_for_socket-Quiet 101 vsock_socket v)
      (λ w _ e. rw e (
        Every->>= see v (blocking_vsock_connect texts vsock_socket) finish (Heard v)
          (Asked api_socket ps m) (blocking_vsock_connect-Heard texts vsock_socket v)
          (λ w ready (bytes, e, says). rw e (
            Every_mono see (heard_line bytes v) (finish ready) (Ready ready (heard_line bytes v))
              (Asked api_socket ps m) (finish-Ready ready (heard_line bytes v))
              (λ u r.
                by_result
                  (λ (r : Result KernelError (Unit {0})).
                    Ready ready (heard_line bytes v) u r → Asked api_socket ps m u r)
                  (λ _ (same, is).
                    rw same (refl, refl, (answers, refl, accepted), said_ready ready bytes is says))
                  (λ _ e. e) r)))
          (λ w x e. e)))
      (λ w x e. rw e refl)

-- A boot that returns has made the requests that start the guest, and no other, and each was accepted;
-- the guest has said that it is ready; the process is not touched.
pub boot-Asked :
    (texts : Texts) (api_socket vsock_socket : Str) (config : Config) (m : Machine)
    → Every see m (boot texts api_socket vsock_socket config) (Asked api_socket (puts config) m)
unfolding boot
boot-Asked texts api_socket vsock_socket config m =
    let ps = puts config in
    Every->>= see m (wait_for_socket 101 api_socket) _ (Stays m) (Asked api_socket ps m)
      (wait_for_socket-Quiet 101 api_socket m)
      (λ v _ e. rw e (
        Every->>= see m (put_all texts api_socket ps) _ (Put api_socket ps m)
          (Asked api_socket ps m) (put_all-Put texts api_socket ps m)
          (λ v _ (answers, e, accepted).
            rw e (rest_of_boot-Asked texts api_socket vsock_socket ps m answers accepted))
          (λ v _ e. e)))
      (λ v _ e. rw e refl)
