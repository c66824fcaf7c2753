-- ===== src/Lib.antt =====
-- osgGIS compiles geographic vector data into scene graphs: features that a cursor reads from a feature
-- store run through a graph of filters, and the tiles of a large map are compiled by the tasks of a
-- task manager. This library models the parts of it that carry state or decide something.
--
-- The parts, and the files that model them:
-- - Tasks: src/osgGIS/TaskManager.cpp, src/osgGIS/Task.cpp and src/osgGIS/AutoResetBlock.
--   Thread has TaskThread (`dispose`, `runTask`, `removeTask`) and the steps of `TaskThread::run`
--   as a relation, ThreadStep. Manager has the queues and the calls of TaskManager (`queueTask`,
--   `update`, `wait`, …); `update` is the composition of three parts for each thread. Moves has the
--   interleavings: the parts of `update` for any thread, the calls of the owner and the threads'
--   own steps, in any order. Null has what a NULL task does. Account, Safety, Conserve, Dispose and Serve have the proofs. Serve also
--   has the loop of a client, from src/osgGIS/GriddedLayerCompiler.cpp.
-- - Filters: src/osgGIS/FilterState.cpp, src/osgGIS/FeatureFilterState.cpp,
--   src/osgGIS/FragmentFilterState.cpp, src/osgGIS/NodeFilterState.cpp,
--   src/osgGIS/CollectionFilterState.cpp, src/osgGIS/FilterEnv.cpp and src/osgGIS/FilterGraph.cpp.
--   Chain has the states and `push`, Traverse the `traverse` methods, Groups and Checkpoint
--   `signalCheckpoint` with `meterGroups` and `meterData`, Graph `computeNodes` and
--   `computeFeatureStore`, Env the environment. The other files have the proofs.
-- - Cursor: src/osgGIS/FeatureCursor.cpp, from which a graph takes its features.
-- - Property: src/osgGIS/Property.cpp, the properties that an environment hands from filter to filter.
-- - Geo: src/osgGIS/GeoPoint.cpp and src/osgGIS/GeoExtent.cpp. Point and Extent have the model,
--   Relate, Expand, Meet and Cover the proofs.
-- - Shapes: src/osgGIS/GeoShape.cpp, GeomUtils of src/osgGIS/Utils.cpp, and of the filters on the
--   parts of shapes src/osgGIS/DecimateFilter.cpp, src/osgGIS/RemoveHolesFilter.cpp and
--   src/osgGIS/ChangeShapeTypeFilter.cpp. Shape, Polygon and Parts have the model, Cache, Ends and
--   Decimate the proofs.
-- - Quad: src/osgGISProjects/QuadKey.cpp, the quadtree over an extent. Key has the model, Digits,
--   Cells, Best and Ends the proofs.
-- - Index: src/osgGIS/RTree, src/osgGIS/RTree.cpp.inline, src/osgGIS/RTreeSpatialIndex.cpp and
--   src/osgGIS/SimpleSpatialIndex.cpp, from which a store finds the features in an extent. Boxes is the
--   interface to extents, which OfExtents fills from Geo. Node has the nodes, `chooseLeaf` and
--   `find`, Split `splitNodeQ`, Tree `insert` and `adjustTree`, Service the two indexes. Inv has the
--   invariant. Groups, Division, Extent, Entries, Search, Table, Place, Halve, Halved, Relinked,
--   Refresh, Refreshed, Link, Grow, Adjust, Step, Climb and Insert have the proofs for the steps,
--   Refine that of the index against a scan. File has `writeTo` and `readFrom`, Cached `buildIndex` with
--   the file of a work directory, Lines, Reload, Keep, Rounded and Reopened their proofs, Unary a file format for
--   the tests.
-- - Combine: src/osgGIS/CombineLinesFilter.cpp, which joins lines at equal ends. Defs has the model,
--   Map, Join, Flags, Step, Round, Loop, Result and Conserve the proofs.
-- - Grid: src/osgGISProjects/GriddedMapLayerCompiler.cpp. Defs has GridProfile, GridCellCursor,
--   `collectGeometryKeys` and `queueTasks`; Keys and Queue have the proofs on the tasks queued, Walk
--   that on the cursor.
-- - Reader: src/osgGIS/SmartReadCallback.cpp, the cache of files with which compilers read models.
--   Defs has the model, Recent, Transparent and Refines the proofs.
-- - Text: StringUtils and PathUtils of src/osgGIS/Utils.cpp. Defs has the model, Trim and Replace the
--   proofs.
-- - Attribute: src/osgGIS/Attribute.cpp, the attributes of features. Defs has the model, Table the
--   proof on tables.
-- - Base: what they share.
-- A module Tests applies the theorems of its part at concrete values.
--
-- State is passed explicitly. `none` of an Option is a call through a NULL pointer, a value that was
-- never set, or the end of the fuel where there is some. Fuel bounds the loop of `meterData` (the
-- length of its source, since each round takes an element at least), the loops of the clients of a
-- cursor and of a task manager (one round for each element and one that ends the loop), the descents
-- and climbs of the R-tree (one more than its levels, of which each insertion adds one at most), the
-- loop of openPolygon (one round for each point), the loop of replaceIn (one round for each byte, and
-- one that ends it), the loop of CombineLinesFilter (two rounds for each segment, since each round
-- either passes a segment for good or makes two active segments one) and the search for a level of the
-- quadtree (one more than the number of a level that ends it).
--
-- Parameters are: how the library prints and reads the values of the R-tree's file; what the virtual
-- methods of filters compute; the feature store of a cursor; the pause of `wait`; `tolower` and the
-- joining of paths; the numbers of attributes; the reading of a file, the tick of the timer and the
-- bounds of a node for the cache of files; the selector of cells and the rounding of doubles; the
-- comparison and length that points inherit from osg::Vec3d; the doubles, with an order that leaves
-- NaN out; and the transformation of a point between spatial references. Unsigned numbers are seen
-- within their range. Hypotheses on them are the order of doubles, that printing an extent and reading
-- it back keeps boxes and containment though it rounds, that half of a size is not negative if the size
-- is not, and that the halves of the sides of a map fall below each positive size.
--
-- Not modelled: timers, log messages and reports; printing and parsing of property values and of
-- extents; the other concrete filters; of the compilers all but the cells of the gridded one; GDAL and
-- OGR stores, Lua bindings, images, XML projects and the command line tools, which are input and
-- output or calls of other libraries.
pub mod Attribute
pub mod Base
pub mod Combine
pub mod Cursor
pub mod Filters
pub mod Geo
pub mod Grid
pub mod Index
pub mod Property
pub mod Quad
pub mod Reader
pub mod Shapes
pub mod Tasks
pub mod Text
