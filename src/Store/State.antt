-- ===== src/Store/State.antt =====
-- internal/repo/memory/memory.go: `Store`. Each operation holds the store's lock from its begin to
-- its end, so it is one action on the state; the instant `now` of a read is a parameter.
use workspace.Base.{[], Dict}
use workspace.Base.Int.{ℤ}
use workspace.Authz.Model.{Tuple}
use workspace.Authz.State.{Action}
use workspace.Service.Types.{
  Project, Workspace, Membership, Invitation, Group, Enrollment, SeatAssignment,
}

pub record Store : Type 0 where
  pub projects : Dict Project
  pub workspaces : Dict (Dict Workspace)
  pub memberships : Dict (Dict (Dict Membership))
  pub invitations : Dict (Dict Invitation)
  pub groups : Dict (Dict Group)
  pub enrollments : Dict (Dict (Dict Enrollment))
  pub seat_limits : Dict (Dict ℤ)
  pub seat_assigns : Dict (Dict (Dict SeatAssignment))
  pub tuples : Dict (Dict Tuple)
  pub seqs : Dict ℤ

unfoldable pub new_store : Store
new_store = record {
  projects = [];
  workspaces = [];
  memberships = [];
  invitations = [];
  groups = [];
  enrollments = [];
  seat_limits = [];
  seat_assigns = [];
  tuples = [];
  seqs = [];
}

abbrev pub Op : Type 0 → Type 0
Op A = Action Store A
