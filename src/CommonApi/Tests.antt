-- ===== src/CommonApi/Tests.antt =====
-- A program in C over engines that are numbers: what `getEpollFd` gives of each.
use plugins_engine.Prelude.{ℕ, ◌≡◌, refl, none, some, inl, inr, List, [], ◌∷◌, arith}
use plugins_engine.CommonApi.{
  Handle, magic_value, Api, Call, creates, destroys, asks_fd, handles_event, asks_pointer, api_call,
  api_calls, handle, descriptor, pointer, done, com_api_create, new_handle, com_api_fd, get_handle,
  get_shared_ptr, on_objects, make_object, share, release, com_api_handle_event, on_object,
  com_api_destroy, delete_handle,
}
use plugins_engine.CommonApi.Spec.{Table, spec_call}
use plugins_engine.CommonApi.Live.{Represents, RunsAlike, api_calls-RunsAlike}

abbrev epoll_fd : ℕ → ℕ
epoll_fd engine = engine

abbrev handle_events : ℕ → ℕ
handle_events engine = engine

abbrev fresh : Api ℕ
fresh = record {
  memory = λ address. record { magic = 0; com_api = 0 };
  objects = record { object = λ id. 0; uses = λ id. 0; next = 0 };
}

abbrev no_handles : Table ℕ
no_handles = record {
  live = λ address. none;
  objects = record { object = λ id. 0; uses = λ id. 0; next = 0 };
}

fresh-Represents : Represents fresh no_handles
fresh-Represents = record { handles = λ h id e. absurd (ground (arith, e)); objects = refl }

-- What `delete` leaves of a handle: all of it, with the magic number back in its place.
abbrev keeps_magic : Handle → Handle
keeps_magic left = record left { magic = magic_value }

-- A handle is used and destroyed, another one gets its address, and then a null one is used.
abbrev program : List (Call ℕ)
program =
    creates (some 7) 64
    ∷ asks_fd 64
    ∷ asks_pointer 64
    ∷ handles_event 64
    ∷ destroys keeps_magic 64
    ∷ creates (some 8) 64
    ∷ asks_fd 64
    ∷ destroys keeps_magic 64
    ∷ destroys keeps_magic 0
    ∷ asks_fd 0
    ∷ []

api_calls-RunsAlike_example :
    RunsAlike epoll_fd handle_events
      (api_calls (api_call epoll_fd handle_events) program fresh)
      (api_calls (spec_call epoll_fd handle_events) program no_handles)
unfolding release on_object share make_object
api_calls-RunsAlike_example =
    api_calls-RunsAlike epoll_fd handle_events program fresh no_handles fresh-Represents (
      (omega arith, refl),
      (
        inr (0, refl),
        (
          inr (0, refl),
          (
            inr (0, refl),
            (
              inr (0, refl),
              ((omega arith, refl), (inr (1, refl), (inr (1, refl), (inl refl, (inl refl, tt))))),
            ),
          ),
        ),
      ),
    )

program_replies :
    (api_calls (api_call epoll_fd handle_events) program fresh).0
    ≡ handle 64
      ∷ descriptor 7
      ∷ pointer 0
      ∷ done
      ∷ done
      ∷ handle 64
      ∷ descriptor 8
      ∷ done
      ∷ done
      ∷ []
unfolding api_calls api_call com_api_create new_handle com_api_fd get_handle get_shared_ptr
    on_objects make_object share release com_api_handle_event on_object com_api_destroy
    delete_handle
program_replies = refl
