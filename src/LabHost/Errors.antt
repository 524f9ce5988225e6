-- ===== src/LabHost/Errors.antt =====
-- The exceptions that the lab host raises itself or meets in the Docker client.
use docker_interface.Prelude.{String}
use docker_interface.Py.Result.{Result}

-- `docker.errors`: the first three are subclasses of `APIError`, which is one of `DockerException`;
-- `ContainerError` is a `DockerException`. An `APIError` carries its `str(exc)`.
pub data DockerError : Type 0 where
  image_not_found not_found api_error : String → DockerError
  container_error docker_exception : DockerError

pub data Error : Type 0 where
  value_error runtime_error file_not_found : String → Error
  overflow_error timeout_expired : Error
  docker : DockerError → Error

abbrev pub Try : Type 0 → Type 0
Try A = Result Error A
