-- ===== src/Gateway.antt =====
-- internal/domain/gateway/gateway.go: the sessions and kernels of the kernel gateway, and the operations on
-- them.
-- A call is made in a context, of which only the identity that it carries matters, `none` if it
-- carries none. Raw JSON is a text.
use workspace_service.Base.{ℤ, Option, List, Text}
use workspace_service.Calls.{Call}
use workspace_service.Identity.{RequestContext}

pub record Kernel : Type 0 where
  pub id : Text
  pub name : Text
  pub last_activity : Text
  pub execution_state : Text
  pub connections : ℤ

pub record Session : Type 0 where
  pub id : Text
  pub path : Text
  pub name : Text
  pub type_ : Text
  pub kernel : Option Kernel

pub record KernelRef : Type 0 where
  pub id : Text
  pub name : Text
  pub custom_envs : Text

pub record CreateSessionRequest : Type 0 where
  pub path : Text
  pub name : Text
  pub type_ : Text
  pub cluster : Text
  pub kernel : Option KernelRef

pub record UpdateSessionRequest : Type 0 where
  pub path : Option Text
  pub name : Option Text
  pub type_ : Option Text
  pub kernel : Option KernelRef

pub record CreateKernelRequest : Type 0 where
  pub name : Text
  pub path : Text
  pub env : List (Text × Text)

pub record KernelSpec : Type 0 where
  pub name : Text
  pub spec : Text
  pub resources : List (Text × Text)

pub record KernelSpecs : Type 0 where
  pub default_ : Text
  pub kernel_specs : List (Text × KernelSpec)

pub record KernelSpecResource : Type 0 where
  pub content_type : Text
  pub data_ : Text

-- The identity on a context.
abbrev pub Ctx : Type 0
Ctx = Option RequestContext

-- The operations on sessions of the interface Client.
pub record SessionClient (W : Type 0) : Type 0 where
  pub create_session : Ctx → CreateSessionRequest → Call W Session
  pub list_sessions : Ctx → Call W (List Session)
  pub get_session : Ctx → Text → Call W Session
  pub update_session : Ctx → Text → UpdateSessionRequest → Call W Session
  pub delete_session : Ctx → Text → Call W (Unit {0})

-- The operations on kernels and kernel specs of the interface Client. No context of theirs carries an
-- identity that matters.
pub record KernelClient (W : Type 0) : Type 0 where
  pub create_kernel : CreateKernelRequest → Call W Kernel
  pub list_kernels : Call W (List Kernel)
  pub get_kernel : Text → Call W Kernel
  pub delete_kernel : Text → Call W (Unit {0})
  pub interrupt_kernel : Text → Call W (Unit {0})
  pub restart_kernel : Text → Call W Kernel
  pub list_kernel_specs : Call W KernelSpecs
  pub get_kernel_spec : Text → Call W KernelSpec
  pub get_kernel_spec_resource : Text → Call W KernelSpecResource
