-- ===== src/Lib.antt =====
-- The Qualcomm display HAL. Of its display core (sdm): which hardware pipes a display gets for a
-- frame, how a frame's composition is chosen, a display's power states and frames, and the helpers for
-- rectangles and buffer formats. Of its buffer allocator (gralloc): the sizes and the heaps of buffers,
-- and the life of a buffer that clients share.
--
-- Parts and files (the sources are below sdm/, those of Gralloc below gralloc/):
-- Rect.antt: libs/utils/rect.cpp. Rect/Region and Rect/Split: rectangles as sets of points, and the
-- splits of a rectangle.
-- Formats.antt: libs/utils/formats.cpp, with the names (Formats/Names) and the layouts
-- (Formats/Layout) of the buffer formats.
-- Constants.antt: the alignment helpers of include/utils/constants.h.
-- Types.antt: the enumerations and structures of include/core and include/private, with the fields
-- that the modelled code uses.
-- Resource.antt and its modules: libs/core/resource_default.cpp, the default resource manager. The
-- state is the class's members; Pipes has SearchPipe, NextPipe and GetPipe, Scaling and Split the
-- checks and the splits of a layer, Prepare the reservation, Display the calls of a client, Init the
-- set-up. Calls has the client's calls as a step relation; the other modules are proofs.
-- Strategy.antt: libs/core/strategy.cpp, how a display's frame is composed. Strategy/Target says edge
-- by edge where the GPU target appears on the mixer.
-- CompManager.antt and its modules: libs/core/comp_manager.cpp. It tries the strategies of a display
-- until its resource manager grants a frame. The resource manager is the record ResourceInterface
-- (include/private/resource_interface.h), which Default fills with the default one.
-- DisplayBase.antt and its modules: libs/core/display_base.cpp, a display over the composition manager
-- and its device. States has the power and vsync states, Protocol and Cycle the frames from Prepare to
-- Commit; the other modules are proofs.
-- Gralloc.antt and its modules. Words, Formats, Dimensions and Size: gr_utils.cpp, and Adreno:
-- gr_adreno_info.cpp, which give the size of a buffer. Descriptor: gr_buf_descriptor.h. Allocator and
-- Ion: gr_allocator.cpp and gr_ion_alloc.cpp, which choose a heap and call the kernel. Manager and
-- Allocate: gr_buf_mgr.cpp, the table of handles with their reference counts. Calls has a client's
-- calls as a step relation, References the table as clients see it; the other modules are proofs.
-- Examples.antt and its modules: the theorems at concrete inputs.
--
-- State and errors: an operation takes the object's state and gives a result and a state, or `none`
-- where the source has no defined outcome: a dangling handle, an index past the end of an array
-- (also in a search of the pipes), a null strategy, a C++ exception, a reference count past the
-- largest int, or a thread that waits for its own lock. Errors of the source are values of
-- DisplayError.
--
-- Parameters: Float is the machine's float arithmetic, over which the code is translated; IsOrdered
-- says that comparisons of floats that are not NaN follow one total order. Extension is the closed
-- extension library behind extension_intf_. Debug::GetExtMaxlayers and SDM_VIRTUAL_DRIVER are
-- arguments. Device is the hardware interface with the color manager. In gralloc the words of the
-- flags of ion and the values of formats (Headers), the properties and the build's options
-- (Environment), the video header (Venus), libadreno_utils (AdrenoUtils), ion and mmap (Kernel), and
-- private_handle_t with the metadata functions (Platform) are arguments.
--
-- Loops are structural recursion on a count or a list: the loop of Prepare in the composition
-- manager recurs on the number of strategies that remain. The loop of DisplayBase's Prepare, which
-- asks the device about one strategy after another, has fuel, and gives no error where the fuel runs
-- out; each round takes one of the strategies that the display has left, so fuel beyond their number
-- is enough.
--
-- Integers that the source keeps in 32 or 64 bits wrap where the code can reach the bound
-- (frame_count, the number of application layers); counters of pipes, which the hardware bounds, do
-- not. Dimensions in buffer descriptors are not negative. The failure of operator new is not
-- modelled. Two threads do not interleave: a lock is held or free, and an operation that would wait
-- for its own thread's lock faults.
--
-- Not modelled: logging and dumps; of the displays, fences, configurations, color modes and the
-- derived classes; the composer above the displays and the device layer below them; of gralloc, the
-- addresses of a mapped buffer's planes and the services; and the other libraries of the repository.
pub mod Base
pub mod Formats
pub mod Constants
pub mod Rect
pub mod Types
pub mod Resource
pub mod Strategy
pub mod CompManager
pub mod Examples
pub mod Gralloc
pub mod DisplayBase
